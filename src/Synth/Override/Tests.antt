-- ===== src/Synth/Override/Tests.antt =====
-- A parent and its vfork child, and the theorems of Views at them.
use wslcompat.Prelude.{ℕ, ◌≡◌, refl, arith, if◌then◌else◌, replicate}
use wslcompat.Prelude.Int.{ℤ, pos, int_eq}
use wslcompat.Synth.Override.{
  Process, Slot, View, override_slots, free_pid, view_fd_load, view_fd_store,
}
use wslcompat.Synth.Override.Slots.{IsLive}
use wslcompat.Synth.Override.Views.{has_room, load-store}

abbrev parent : Process
parent = record { pid = 100; starttime = 7 }

abbrev child : Process
child = record { pid = 101; starttime = 9 }

abbrev starttimes : ℤ → ℕ
starttimes p = if int_eq p (pos 100) then 7 else if int_eq p (pos 101) then 9 else 0

parent-IsLive : IsLive starttimes parent
parent-IsLive = record { has_pid = omega arith; start = refl }

child-IsLive : IsLive starttimes child
child-IsLive = record { has_pid = omega arith; start = refl }

abbrev free_slot : Slot
free_slot = record { pid = free_pid; starttime = 0; fd = pos 0 }

abbrev view : View
view = record { install = parent; base = pos 5; slots = replicate override_slots free_slot }

load-store_example :
    view_fd_load child (view_fd_store starttimes child view (pos 12))
    ≡ (if has_room starttimes child child-IsLive view then pos 12 else view_fd_load child view)
load-store_example = load-store starttimes child child-IsLive view (pos 12)
