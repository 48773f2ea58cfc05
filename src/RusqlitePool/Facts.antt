-- ===== src/RusqlitePool/Facts.antt =====
-- What the documentation of the queue and of the semaphore (RusqlitePool/Queue, RusqlitePool/Permits)
-- tells from the result of a call.
use essential_node.RusqlitePool.Queue.{ArrayQueue, IsArrayQueue}
use essential_node.RusqlitePool.Permits.{Semaphore, IsSemaphore}
use native.Mathlib.Decide.{dec_lt}
use essential_node.Prelude.{
  ℕ, zero, suc, ◌≤◌, ◌≡◌, refl, sym, ap, subst, ◌∙◌, inl, inr, false, none, some, List, [], ◌∷◌,
  arith, Bool-cases, length, length-append, ok, err, ok-eq-ok,
}

module _ {Connection : Type 0} (aq : ArrayQueue Connection) (qlaws : IsArrayQueue aq)
    (sm : Semaphore) (slaws : IsSemaphore sm) where
  -- what a popped queue held
  pub pop-contents :
      (q : aq.Queue) {c : Connection} {q' : aq.Queue}
      → aq.pop_front q ≡ some (c, q')
      → (qlaws.contents q ≡ c ∷ qlaws.contents q') × (aq.queue_capacity q' ≡ aq.queue_capacity q)
  pop-contents q {c} {q'} e = by_contents (qlaws.contents q) refl
    where
      by_contents :
          (cs : List Connection)
          → qlaws.contents q ≡ cs
          → (qlaws.contents q ≡ c ∷ qlaws.contents q')
            × (aq.queue_capacity q' ≡ aq.queue_capacity q)
      by_contents [] empty = absurd (let bad = qlaws.pop_empty q empty in cc)
      by_contents (a ∷ rest) held =
          let (q2, found, more, same) = qlaws.pop_first a rest q held in
          let first : a ≡ c = cc (found, e) in let after : q2 ≡ q' = cc (found, e) in (cc, cc)

  pub pop-none : (q : aq.Queue) → aq.pop_front q ≡ none → length (qlaws.contents q) ≡ 0
  pop-none q e = by_contents (qlaws.contents q) refl
    where
      by_contents : (cs : List Connection) → qlaws.contents q ≡ cs → length (qlaws.contents q) ≡ 0
      by_contents [] empty = ap length empty
      by_contents (a ∷ rest) held =
          absurd (let (q2, found, more, same) = qlaws.pop_first a rest q held in cc)

  pub push-contents :
      (c : Connection) (q : aq.Queue) {q' : aq.Queue}
      → aq.push c q ≡ ok q'
      → (length (qlaws.contents q') ≡ suc (length (qlaws.contents q)))
        × (aq.queue_capacity q' ≡ aq.queue_capacity q)
  push-contents c q {q'} e = elim (dec_lt (length (qlaws.contents q)) (aq.queue_capacity q)) [
    | yes room ↦
        let (q2, pushed, held, same) = qlaws.push_room c q room in
        let eq : q2 ≡ q' = ok-eq-ok (sym pushed ∙ e) in
        subst
          (λ x.
            (length (qlaws.contents x) ≡ suc (length (qlaws.contents q)))
            × (aq.queue_capacity x ≡ aq.queue_capacity q))
          eq (omega (arith, ap length held, length-append (qlaws.contents q) (c ∷ [])), same)
    | no full ↦ absurd (let failed = qlaws.push_full c q (omega arith) in cc)
  ]

  pub push-err :
      (c : Connection) (q : aq.Queue) {e : Connection}
      → aq.push c q ≡ err e
      → aq.queue_capacity q ≤ length (qlaws.contents q)
  push-err c q e = elim (dec_lt (length (qlaws.contents q)) (aq.queue_capacity q)) [
    | yes room ↦ absurd (let (q2, pushed, held, same) = qlaws.push_room c q room in cc)
    | no full ↦ omega arith
  ]

  -- a permit that is given comes from an open semaphore
  pub acquire-ok :
      (s : sm.Sem) {s' : sm.Sem}
      → sm.try_acquire_owned s ≡ ok s'
      → (slaws.permits s ≡ suc (slaws.permits s'))
        × (sm.semaphore_is_closed s ≡ false)
        × (sm.semaphore_is_closed s' ≡ false)
  acquire-ok s {s'} e = elim (Bool-cases (sm.semaphore_is_closed s)) [
    | inl shut_before ↦ absurd (let failed = slaws.acquire_closed s shut_before in cc)
    | inr open_before ↦ by_permits open_before (slaws.permits s) refl
  ]
    where
      by_permits :
          sm.semaphore_is_closed s ≡ false
          → (n : ℕ) → slaws.permits s ≡ n
          → (slaws.permits s ≡ suc (slaws.permits s'))
            × (sm.semaphore_is_closed s ≡ false)
            × (sm.semaphore_is_closed s' ≡ false)
      by_permits opened zero left = absurd (let failed = slaws.acquire_none s opened left in cc)
      by_permits opened (suc n) left =
          let (s2, given, fewer, still) = slaws.acquire_some n s opened left in
          let eq : s2 ≡ s' = ok-eq-ok (sym given ∙ e) in
          (omega (arith, ap slaws.permits eq), opened, cc)
