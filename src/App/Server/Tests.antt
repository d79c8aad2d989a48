-- ===== src/App/Server/Tests.antt =====
-- Three kbufs, of which the last is reported first, and the first after it.
use Prim.Native.Nat.{bit_and}
use kernel_code.Prelude.{
  ℕ, ◌≡◌, ◌≢◌, refl, Option, none, some, List, [], ◌∷◌, length, ◌==◌, if◌then◌else◌, subst, Bool,
  true, false, ==_iff,
}
use kernel_code.Kbuf.Buffer.{empty_buffer, overwrite}
use kernel_code.Kbuf.Waiting.{Device, fresh}
use kernel_code.Kbuf.Poll.{poll, pollin}
use kernel_code.App.Server.{Kbufs, Event, Epoll, Distinct, Reported}

abbrev holding : List ℕ → Device
holding bs = record fresh {
  buffer = record { mem = overwrite empty_buffer.mem 0 bs; validlen = length bs };
}

abbrev three : Kbufs
three i = if i == 0 then holding (104 ∷ 105 ∷ []) else if i == 2 then holding (111 ∷ []) else fresh

abbrev event : ℕ → Event
event i = record { fd = i; events = pollin }

-- The events where kbufs 2 and 0 can be read or not; with neither a signal ends the wait.
abbrev events_for : (last first : Bool) → Option (List Event)
events_for true true = some (event 2 ∷ event 0 ∷ [])
events_for true false = some (event 2 ∷ [])
events_for false true = some (event 0 ∷ [])
events_for false false = none

abbrev is_ready : Kbufs → ℕ → Bool
is_ready kbufs i = bit_and (poll (kbufs i)) pollin == pollin

ready_mask :
    (kbufs : Kbufs) (i : ℕ) → is_ready kbufs i ≡ true → bit_and (poll (kbufs i)) pollin ≡ pollin
ready_mask kbufs i ready = (==_iff (bit_and (poll (kbufs i)) pollin) pollin).0 ready

pub events_for-some : (a b : Bool) → events_for a b ≢ some []
events_for-some true true e = cc
events_for-some true false e = cc
events_for-some false true e = cc
events_for-some false false e = cc

inj : {es fs : List Event} → ◌≡◌ {A = Option (List Event)} (some es) (some fs) → es ≡ fs
inj e = cc

pub events_for-Distinct : (a b : Bool) {es : List Event} → events_for a b ≡ some es → Distinct es
events_for-Distinct true true e = subst Distinct (inj e) (refl, (refl, tt))
events_for-Distinct true false e = subst Distinct (inj e) (refl, tt)
events_for-Distinct false true e = subst Distinct (inj e) (refl, tt)
events_for-Distinct false false e = cc

pub events_for-Reported :
    (kbufs : Kbufs) (a b : Bool) {es : List Event}
    → is_ready kbufs 2 ≡ a
    → is_ready kbufs 0 ≡ b
    → events_for a b ≡ some es
    → Reported kbufs es
events_for-Reported kbufs true true h2 h0 e =
    subst (Reported kbufs) (inj e) (refl, ready_mask kbufs 2 h2, (refl, ready_mask kbufs 0 h0, tt))
events_for-Reported kbufs true false h2 h0 e =
    subst (Reported kbufs) (inj e) (refl, ready_mask kbufs 2 h2, tt)
events_for-Reported kbufs false true h2 h0 e =
    subst (Reported kbufs) (inj e) (refl, ready_mask kbufs 0 h0, tt)
events_for-Reported kbufs false false h2 h0 e = cc

abbrev two_watched : Epoll
two_watched = record {
  wait = λ kbufs. (events_for (is_ready kbufs 2) (is_ready kbufs 0), kbufs);
  some_event = λ kbufs. events_for-some (is_ready kbufs 2) (is_ready kbufs 0);
  distinct = λ kbufs. events_for-Distinct (is_ready kbufs 2) (is_ready kbufs 0);
  reported = λ kbufs. events_for-Reported kbufs (is_ready kbufs 2) (is_ready kbufs 0) refl refl;
  keeps = λ kbufs v. v;
}
