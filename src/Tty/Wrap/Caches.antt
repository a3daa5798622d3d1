-- ===== src/Tty/Wrap/Caches.antt =====
-- The caches agree with the terminal, and where they do not.
use wslcompat.Prelude.{
  ℕ, ◌≡◌, ◌≢◌, Bool, true, false, ◌&&◌, List, [], ◌∷◌, arith, ◌==◌, if◌then◌else◌, Res, ret, fail,
}
use wslcompat.Tty.{TtyState}
use wslcompat.Tty.Wrap.{
  Terminal, Request, set_termios, set_termio, fionbio, other_request, Command, set_flags,
  other_command, Calls, observe_ioctl, tty_ioctl, observe_fcntl, tty_fcntl,
}

abbrev pub succeeded : Res ℕ → Bool
succeeded (ret n) = n == 0
succeeded (fail e) = false

abbrev pub done : Res ℕ → Bool
done (ret n) = true
done (fail e) = false

-- What a request and a command do to the terminal when they succeed.
abbrev pub ioctl_effect : Request → Terminal → Terminal
ioctl_effect (set_termios x) t = record t { termios = x }
ioctl_effect (set_termio x) t = record t { termios = x }
ioctl_effect (fionbio b) t = record t { nonblock = b }
ioctl_effect (other_request n) t = t

abbrev pub fcntl_effect : Command → Terminal → Terminal
fcntl_effect (set_flags b) t = record t { nonblock = b }
fcntl_effect (other_command n) t = t

-- As ioctl_tty(2) and fcntl(2) say.
pub record IsTty (K : Calls) : Type 0 where
  pub ioctl_law :
      (q : Request) (t : Terminal)
      → (K.ioctl q t).1 ≡ (if succeeded (K.ioctl q t).0 then ioctl_effect q t else t)
  pub fcntl_law :
      (c : Command) (t : Terminal)
      → (K.fcntl c t).1 ≡ (if done (K.fcntl c t).0 then fcntl_effect c t else t)

pub record Coherent (x : TtyState × Terminal) : Type 0 where
  pub canon : x.0.canon ≡ x.1.termios.icanon
  pub vmin : x.0.vmin ≡ x.1.termios.min
  pub vtime : x.0.vtime ≡ x.1.termios.time
  pub nonblock : x.0.nonblock ≡ x.1.nonblock

-- A call on the wrap.
pub data Act : Type 0 where
  by_ioctl : Request → Act
  by_fcntl : Command → Act

abbrev pub act : Calls → Act → TtyState × Terminal → TtyState × Terminal
act K (by_ioctl q) x = let (r, s, t) = tty_ioctl K q x in (s, t)
act K (by_fcntl c) x = let (r, s, t) = tty_fcntl K c x in (s, t)

abbrev pub run : Calls → List Act → TtyState × Terminal → TtyState × Terminal
run K [] x = x
run K (a ∷ rest) x = run K rest (act K a x)

-- The calls whose effect the handler watches.
abbrev pub watched : Act → Bool
watched (by_ioctl (set_termio t)) = false
watched (by_ioctl (fionbio b)) = false
watched _ = true

abbrev pub all_watched : List Act → Bool
all_watched [] = true
all_watched (a ∷ rest) = watched a && all_watched rest

observe_ioctl-Coherent :
    (q : Request) (r : Res ℕ) (s : TtyState) (t : Terminal)
    → watched (by_ioctl q) ≡ true
    → Coherent (s, t)
    → Coherent (observe_ioctl q r s, if succeeded r then ioctl_effect q t else t)
unfolding observe_ioctl
observe_ioctl-Coherent (set_termios x) (ret n) s t w h = ground arith
observe_ioctl-Coherent (set_termios x) (fail e) s t w h = h
observe_ioctl-Coherent (set_termio x) r s t w h = cc
observe_ioctl-Coherent (fionbio b) r s t w h = cc
observe_ioctl-Coherent (other_request n) r s t w h = ground arith

observe_fcntl-Coherent :
    (c : Command) (r : Res ℕ) (s : TtyState) (t : Terminal)
    → Coherent (s, t)
    → Coherent (observe_fcntl c r s, if done r then fcntl_effect c t else t)
unfolding observe_fcntl
observe_fcntl-Coherent (set_flags b) (ret n) s t h = ground arith
observe_fcntl-Coherent (set_flags b) (fail e) s t h = h
observe_fcntl-Coherent (other_command n) r s t h = ground arith

act-Coherent :
    (K : Calls) (a : Act) (x : TtyState × Terminal)
    → IsTty K
    → watched a ≡ true
    → Coherent x
    → Coherent (act K a x)
unfolding tty_ioctl tty_fcntl
act-Coherent K (by_ioctl q) (s, t) k w h =
    rw (k.ioctl_law q t) (observe_ioctl-Coherent q (K.ioctl q t).0 s t w h)
act-Coherent K (by_fcntl c) (s, t) k w h =
    rw (k.fcntl_law c t) (observe_fcntl-Coherent c (K.fcntl c t).0 s t h)

-- From caches that agree with the terminal, any sequence of ioctl and fcntl calls on the wrap,
-- failing or not, leaves caches that agree with it, if it has none of TCSETA, TCSETAW, TCSETAF and
-- FIONBIO, on a terminal that does what the manual says.
pub run-Coherent :
    (K : Calls) (acts : List Act) (x : TtyState × Terminal)
    → IsTty K
    → all_watched acts ≡ true
    → Coherent x
    → Coherent (run K acts x)
run-Coherent K [] x k w h = h
run-Coherent K (a ∷ rest) x k w h =
    run-Coherent K rest (act K a x) k (ground arith) (act-Coherent K a x k (ground arith) h)

-- A successful FIONBIO that changes O_NONBLOCK leaves the cache at the old value: from caches that
-- agree with the terminal to caches that do not.
pub fionbio_stale :
    (K : Calls) (b : Bool) (s : TtyState) (t : Terminal)
    → IsTty K
    → Coherent (s, t)
    → succeeded (K.ioctl (fionbio b) t).0 ≡ true
    → b ≢ t.nonblock
    → ¬ Coherent (act K (by_ioctl (fionbio b)) (s, t))
unfolding tty_ioctl observe_ioctl
fionbio_stale K b s t k h ok new after =
    let law = k.ioctl_law (fionbio b) t in new (cc (ok, law, h.nonblock, after.nonblock))
