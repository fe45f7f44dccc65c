-- ===== src/Tee.antt =====
-- src/proxy/dataset_tee.rs: a copy of a body on its way to the client, handed over once.
pub mod Once
pub mod Tests
use router.Prelude.{
  ℕ, ◌+◌, ◌*◌, Bool, true, false, ◌&&◌, not, List, [], ◌∷◌, ◌++◌, Option, none, some, if◌then◌else◌,
  ltb, length,
}

abbrev Bytes : Type 0
Bytes = List ℕ

abbrev pub max_capture : ℕ
max_capture = 64 * 1024 * 1024

-- `armed` says that the callback is still there, `fired` lists its calls.
pub record FireOnDrop : Type 0 where
  pub acc : List ℕ
  pub overflowed : Bool
  pub armed : Bool
  pub fired : List (List ℕ × Bool)

pub fire_now : FireOnDrop → Bool → FireOnDrop
fire_now guard complete =
    if guard.armed
    then record guard {
      acc = [];
      armed = false;
      fired = guard.fired ++ (guard.acc, complete && not guard.overflowed) ∷ [];
    }
    else guard

-- `Drop for FireOnDrop`.
pub drop_guard : FireOnDrop → FireOnDrop
drop_guard guard = fire_now guard false

pub data TeeState : Type 0 where
  live : FireOnDrop → TeeState
  done : FireOnDrop → TeeState

-- What the upstream body answers to a poll.
pub data Upstream : Type 0 where
  chunk : List ℕ → Upstream
  failed ended : Upstream

unfoldable pub capture : FireOnDrop → List ℕ → FireOnDrop
capture guard bytes =
    if guard.overflowed
    then guard
    else if ltb max_capture (length guard.acc + length bytes)
    then record guard { overflowed = true; acc = [] }
    else record guard { acc = guard.acc ++ bytes }

-- One poll of the teed body: what the client gets, and the state. The guard of a state that is done
-- was dropped when its branch returned.
pub poll : TeeState → Upstream → Option Upstream × TeeState
poll (TeeState.live guard) (Upstream.chunk bytes) =
    (some (Upstream.chunk bytes), TeeState.live (capture guard bytes))
poll (TeeState.live guard) Upstream.failed =
    (some Upstream.failed, TeeState.done (drop_guard (fire_now guard false)))
poll (TeeState.live guard) Upstream.ended = (none, TeeState.done (drop_guard (fire_now guard true)))
poll (TeeState.done guard) answer = (none, TeeState.done guard)

-- The body is dropped, whatever state it is in.
pub drop_body : TeeState → List (List ℕ × Bool)
drop_body (TeeState.live guard) = (drop_guard guard).fired
drop_body (TeeState.done guard) = guard.fired

pub tee : TeeState
tee = TeeState.live (record { acc = []; overflowed = false; armed = true; fired = [] })

-- The client polls the body as often as there are answers, and drops it then: what it got, and the
-- calls of the callback.
pub serve : TeeState → List Upstream → List (Option Upstream) × List (List ℕ × Bool)
serve st [] = ([], drop_body st)
serve st (answer ∷ answers) =
    let (got, st) = poll st answer in let (more, fired) = serve st answers in (got ∷ more, fired)
