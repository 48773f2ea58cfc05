-- ===== src/Api/Server.antt =====
-- crates/node-api/src/lib.rs: the loop that accepts connections and limits how many are served at once.
-- tokio's `JoinSet` is a crate outside the repository: an interface with its documented behaviour.
-- The sockets are left out, and what a listener accepts is an input.
pub mod Limit
mod Tests
use essential_node.Prelude.{
  ℕ, suc, ◌≡◌, Option, none, some, List, [], ◌∷◌, leb, if◌then◌else◌, Result, ok, err,
}

-- a set of tasks, each of which is in it until it is joined
pub record JoinSet : Type 1 where
  pub Set : Type 0
  pub JoinError : Type 0
  pub empty : Set
  pub len : Set → ℕ
  pub spawn : Set → Set
  pub join_next : Set → Option (Result JoinError (Unit {0}) × Set)

pub record IsJoinSet (js : JoinSet) : Type 0 where
  pub len-empty : js.len js.empty ≡ 0
  pub len-spawn : (s : js.Set) → js.len (js.spawn s) ≡ suc (js.len s)
  pub join_next-none : (s : js.Set) → js.len s ≡ 0 → js.join_next s ≡ none
  pub join_next-some :
      (s : js.Set) (n : ℕ)
      → js.len s ≡ suc n
      → (r : Result js.JoinError (Unit {0})) × (s' : js.Set) × (js.join_next s ≡ some (r, s'))
        × (js.len s' ≡ n)

-- `expect("set cannot be empty")`
pub data ServePanic : Type 0 where
  set_empty : ServePanic

-- `io::Error`, of the listener or from a task that did not join
pub data IoError (E : Type 0) : Type 0 where
  accept_failed : IoError E
  task_failed : E → IoError E

abbrev pub default_connection_limit : ℕ
default_connection_limit = 2000

module _ (js : JoinSet) where
  open js use {Set, JoinError}

  -- what `listener.accept()` gives, with the stream and the address left out
  abbrev pub Accepted : Type 0
  Accepted = Result (IoError JoinError) (Unit {0})

  unfoldable pub next_conn : ℕ → Accepted → Set → Result ServePanic (Accepted × Set)
  next_conn conn_limit accepted conn_set =
      if leb conn_limit (js.len conn_set)
      then (elim (js.join_next conn_set) [
        | none ↦ err set_empty
        | some (err e, conn_set') ↦ ok (err (task_failed e), conn_set')
        | some (ok u, conn_set') ↦ ok (accepted, conn_set')
      ])
      else ok (accepted, conn_set)

  unfoldable pub serve_next_conn : ℕ → Accepted → Set → Result ServePanic Set
  unfolding next_conn
  serve_next_conn conn_limit accepted conn_set = elim (next_conn conn_limit accepted conn_set) [
    | err panic ↦ err panic
    | ok (err e, conn_set') ↦ ok conn_set'
    | ok (ok u, conn_set') ↦ ok (js.spawn conn_set')
  ]

  -- the loop of `serve`, over what its listener accepts in turn
  unfoldable pub serve_loop : ℕ → List Accepted → Set → Result ServePanic Set
  unfolding serve_next_conn
  serve_loop conn_limit [] conn_set = ok conn_set
  serve_loop conn_limit (accepted ∷ more) conn_set =
      elim (serve_next_conn conn_limit accepted conn_set) [
        | err panic ↦ err panic
        | ok conn_set' ↦ serve_loop conn_limit more conn_set'
      ]

  unfoldable pub serve : ℕ → List Accepted → Result ServePanic Set
  unfolding serve_loop
  serve conn_limit accepts = serve_loop conn_limit accepts js.empty
