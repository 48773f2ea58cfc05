-- ===== src/Api/Server/Limit.antt =====
-- How many connections the server of crates/node-api/src/lib.rs serves at once.
use essential_node.Api.Server.{
  JoinSet, IsJoinSet, set_empty, Accepted, next_conn, serve_next_conn, serve_loop, serve,
}
use essential_node.Prelude.{
  ℕ, suc, ◌≤◌, ◌≡◌, refl, inl, inr, some, List, [], ◌∷◌, arith, leb, tests, Bool-cases, ok, err,
}

module _ (js : JoinSet) (laws : IsJoinSet js) where
  serve_next_conn-at_most :
      (n : ℕ) (accepted : Accepted js) (s : js.Set)
      → js.len s ≤ suc n
      → (s' : js.Set) × (serve_next_conn js (suc n) accepted s ≡ ok s') × (js.len s' ≤ suc n)
  unfolding serve_next_conn next_conn
  serve_next_conn-at_most n accepted s below = elim (Bool-cases (leb (suc n) (js.len s))) [
    | inl full ↦
        let (r, s', joined, fewer) = laws.join_next-some s n (omega (tests, below, full)) in
        elim r
            as (λ r.
              js.join_next s ≡ some (r, s')
              → (s' : js.Set) × (serve_next_conn js (suc n) accepted s ≡ ok s')
                × (js.len s' ≤ suc n)) [
                  | err e ↦ λ joined.
                      (s', rw (serve_next_conn, next_conn, full, joined) refl, omega arith)
                  | ok u ↦ λ joined.
                      elim accepted
                        as (λ a.
                          (s' : js.Set) × (serve_next_conn js (suc n) a s ≡ ok s')
                          × (js.len s' ≤ suc n)) [
                            | err e ↦ (
                              s',
                              rw (serve_next_conn, next_conn, full, joined) refl,
                              omega arith,
                            )
                            | ok u ↦ (
                              js.spawn s',
                              rw (serve_next_conn, next_conn, full, joined) refl,
                              omega (arith, laws.len-spawn s'),
                            )
                          ]
                ]
          joined
    | inr room ↦
        elim accepted
          as (λ a. (s' : js.Set) × (serve_next_conn js (suc n) a s ≡ ok s') × (js.len s' ≤ suc n)) [
            | err e ↦ (s, rw (serve_next_conn, next_conn, room) refl, omega arith)
            | ok u ↦ (
              js.spawn s,
              rw (serve_next_conn, next_conn, room) refl,
              ground (arith, room, laws.len-spawn s),
            )
          ]
  ]

  serve_loop-at_most :
      (n : ℕ) (accepts : List (Accepted js)) (s : js.Set)
      → js.len s ≤ suc n
      → (s' : js.Set) × (serve_loop js (suc n) accepts s ≡ ok s') × (js.len s' ≤ suc n)
  unfolding serve_loop
  serve_loop-at_most n [] s below = (s, refl, below)
  serve_loop-at_most n (a ∷ more) s below =
      let (s1, one, below1) = serve_next_conn-at_most n a s below in
      let (s2, rest, below2) = serve_loop-at_most n more s1 below1 in
      (s2, rw (serve_loop, one) rest, below2)

  -- With a limit above 0 the server never panics, whatever its listener accepts and however its tasks
  -- end, and the tasks of its set are at most as many as the limit says. With a limit of 0 it panics
  -- before it accepts a connection.
  pub serve-at_most :
      (n : ℕ) (accepts : List (Accepted js)) (accepted : Accepted js)
      → ((s : js.Set) × (serve js (suc n) accepts ≡ ok s) × (js.len s ≤ suc n))
        × (serve js 0 (accepted ∷ accepts) ≡ err set_empty)
  unfolding serve serve_loop serve_next_conn next_conn
  serve-at_most n accepts accepted = (
    serve_loop-at_most n accepts js.empty (omega (arith, laws.len-empty)),
    rw
        (
          serve,
          serve_loop,
          serve_next_conn,
          next_conn,
          laws.join_next-none js.empty laws.len-empty,
          laws.len-empty,
        )
        refl,
  )
