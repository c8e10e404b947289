-- ===== src/Connections.antt =====
-- sdks/cpp/common/include/rpc/Connect.h (`initAuthz_`, `operator<`) and
-- sdks/cpp/common/src/ConnectionQueue.cpp.
--
-- A connection is what the queue reads of it: which object it is, its rank, and what `isCancelled`
-- answers at the time of the call.
pub mod Priority
pub mod Order
pub mod Queue
use catena.Base.{
  ℕ, zero, suc, ◌+◌, ◌*◌, Bool, true, false, ◌&&◌, ◌||◌, not, List, [], ◌∷◌, ◌++◌, Option, none,
  some, length, keep, map, ltb, leb, ◌==◌, if◌then◌else◌,
}
use catena.Authorizer.{
  Authorizer, Scope, undefined_scope, monitor, operate, config, admin, scope_name, read_authz,
  write_authz,
}
use catena.Status.{Outcome, returns, throws, with_status, invalid_argument}

-- `static_cast<Scopes_e>(i)`
abbrev pub scope_at : ℕ → Scope
scope_at zero = undefined_scope
scope_at (suc zero) = monitor
scope_at (suc (suc zero)) = operate
scope_at (suc (suc (suc zero))) = config
scope_at (suc (suc (suc (suc n)))) = admin

-- The loop of `initAuthz_`, from `i` down to `kMonitor`; 0 is the priority before it.
unfoldable pub priority_from : Authorizer → ℕ → ℕ
priority_from a zero = 0
priority_from a (suc i) =
    let lower = priority_from a i in
    let scope = scope_name (scope_at (suc i)) in
    if read_authz a scope then 2 * suc i + (if write_authz a scope then 1 else 0) else lower

-- With authorization off the priority stays what the field's initialiser says.
unfoldable pub init_priority : Bool → Authorizer → ℕ
unfolding priority_from
init_priority authz a = if authz then priority_from a 4 else 0

pub record Connection : Type 0 where
  pub handle : ℕ
  pub priority : ℕ
  pub object_id : ℕ
  pub cancelled : Bool

-- `operator<`
unfoldable pub lt_connection : Connection → Connection → Bool
lt_connection a b =
    ltb a.priority b.priority || (a.priority == b.priority && leb b.object_id a.object_id)

-- `find_if` and `insert`: in front of the first connection that the new one is below.
unfoldable pub insert_connection : Connection → List Connection → List Connection
insert_connection c [] = c ∷ []
insert_connection c (d ∷ ds) = if lt_connection c d then c ∷ d ∷ ds else d ∷ insert_connection c ds

-- Whether `find_if` stops at `begin()`, which is also `end()` where the queue is empty.
unfoldable pub goes_first : Connection → List Connection → Bool
goes_first c [] = true
goes_first c (d ∷ ds) = lt_connection c d

unfoldable pub live : List Connection → List Connection
live = keep (λ c. not c.cancelled)

-- What a registration leaves: the queue, the connections that it shut down, and its answer.
pub record Registration : Type 0 where
  pub queue : List Connection
  pub shut_down : List Connection
  pub added : Bool

-- The full queue drops its first connection for the new one, unless the new one would be first.
unfoldable pub replace : Connection → List Connection → List Connection → Registration
replace c purged shut = elim (insert_connection c purged) [
  | [] ↦ record { queue = []; shut_down = shut; added = true }
  | victim ∷ rest ↦ record { queue = rest; shut_down = shut ++ victim ∷ []; added = true }
]

unfoldable pub register : ℕ → Connection → List Connection → Registration
unfolding replace live goes_first
register max c queue =
    let full = leb max (length queue) in
    let purged = if full then live queue else queue in
    let shut = if full then keep (λ d. d.cancelled) queue else [] in
    if leb max (length purged)
    then (if goes_first c purged
        then record { queue = purged; shut_down = shut; added = false }
        else replace c purged shut)
    else record { queue = insert_connection c purged; shut_down = shut; added = true }

-- `registerConnection`; `none` is the null pointer.
unfoldable pub register_connection : ℕ → Option Connection → List Connection → Outcome Registration
register_connection max none queue = throws (with_status invalid_argument)
register_connection max (some c) queue = returns (register max c queue)

-- `deregisterConnection`: the first entry that is this object.
unfoldable pub deregister : ℕ → List Connection → List Connection
deregister h [] = []
deregister h (c ∷ cs) = if c.handle == h then cs else c ∷ deregister h cs
