-- ===== src/Kafka/Balance.antt =====
-- What becomes of the events of a lane, in any interleaving of publishers, worker and `Close`.
use mathlib.Core.List.{Sublistᴰ, append_assoc, append-nil}
use mathlib.Core.List.Sublistᴰ.{slnil, cons, cons-cons}
use mathlib.Core.Path.{subst}
use central_auth.Common.{
  inl, inr, ◌⊎◌, ◌<◌, Bool-cases, ℕ, ◌+◌, ◌≤◌, ◌≡◌, refl, sym, ap, ◌∙◌, Bool, true, some, List, [],
  ◌∷◌, ◌++◌, length, length-append, map, ltb, arith,
}
use central_auth.Kafka.{Lane, make_lane, publish, work, close}

module _ {A : Type 0} where
  -- The histories of a lane from `l` on, with the events that were published, in their order.
  pub data History (l : Lane A) : List A → Lane A → Type 0 where
    start : History l [] l
    published :
        {es : List A} {m : Lane A} (e : A) (n : Lane A)
        → History l es m
        → publish e m ≡ some n
        → History l (es ++ (e ∷ [])) n
    worked :
        {es : List A} {m : Lane A} (written : Bool) → History l es m → History l es (work written m)
    shut : {es : List A} {m : Lane A} → History l es m → History l es (close m)

  -- The events that were accepted: those that the worker has taken, and those that wait.
  abbrev pub accepted : Lane A → List A
  accepted m = map (λ t. t.0) m.taken ++ m.queue

  pub record IsBalanced (capacity : ℕ) (es : List A) (m : Lane A) : Type 0 where
    pub in_order : Sublistᴰ (accepted m) es
    pub counted : length es ≡ length (accepted m) + m.dropped
    pub bounded : length m.queue ≤ capacity
    pub same_capacity : m.capacity ≡ capacity

  -- An event more at the end of the history
  Sublist-keep :
      {xs es : List A} (e : A) → Sublistᴰ xs es → Sublistᴰ (xs ++ (e ∷ [])) (es ++ (e ∷ []))
  Sublist-keep e slnil = cons-cons refl slnil
  Sublist-keep e (cons s) = cons (Sublist-keep e s)
  Sublist-keep e (cons-cons h s) = cons-cons h (Sublist-keep e s)

  Sublist-skip : {xs es : List A} (e : A) → Sublistᴰ xs es → Sublistᴰ xs (es ++ (e ∷ []))
  Sublist-skip e slnil = cons slnil
  Sublist-skip e (cons s) = cons (Sublist-skip e s)
  Sublist-skip e (cons-cons h s) = cons-cons h (Sublist-skip e s)

  -- A round of the worker moves an event, and loses none.
  move_one :
      (taken : List (A × Bool)) (e : A) (o : Bool) (rest : List A)
      → map (λ t. t.0) (taken ++ ((e, o) ∷ [])) ++ rest ≡ map (λ t. t.0) taken ++ (e ∷ rest)
  move_one [] e o rest = refl
  move_one (t ∷ taken) e o rest = ap (λ l. t.0 ∷ l) (move_one taken e o rest)

  work-keeps :
      (o : Bool) (m : Lane A) (q : List A)
      → m.queue ≡ q
      → (accepted (work o m) ≡ accepted m)
        × (length (work o m).queue ≤ length m.queue)
        × ((work o m).dropped ≡ m.dropped)
        × ((work o m).capacity ≡ m.capacity)
  unfolding work
  work-keeps o m [] h = (ground (arith, h), ground (arith, h), ground (arith, h), ground (arith, h))
  work-keeps o m (e ∷ rest) h = (
    ground (arith, h, move_one m.taken e o rest),
    ground (arith, h),
    ground (arith, h),
    ground (arith, h),
  )

  work-Balanced :
      (capacity : ℕ) (es : List A) (o : Bool) (m : Lane A)
      → IsBalanced capacity es m
      → IsBalanced capacity es (work o m)
  work-Balanced capacity es o m b =
      let (same, shorter, drops, room) = work-keeps o m m.queue refl in
      record {
        in_order = subst (λ xs. Sublistᴰ xs es) (sym same) b.in_order;
        counted = omega (arith, b.counted, ap length same, drops);
        bounded = omega (arith, b.bounded, shorter);
        same_capacity = room ∙ b.same_capacity;
      }

  publish-cases :
      (e : A) (m n : Lane A)
      → publish e m ≡ some n
      → ((record m { queue = m.queue ++ (e ∷ []) } ≡ n) × (length m.queue < m.capacity))
        ⊎ (record m { dropped = m.dropped + 1 } ≡ n)
  unfolding publish
  publish-cases e m n h = elim (Bool-cases m.closed) [
    | inl c ↦ ground (arith, h, c)
    | inr c ↦ elim (Bool-cases (ltb (length m.queue) m.capacity)) [
      | inl f ↦ inl (ground (arith, h, c, f), ground (arith, f))
      | inr f ↦ inr (ground (arith, h, c, f))
    ]
  ]

  publish-Balanced :
      (capacity : ℕ) (es : List A) (e : A) (m n : Lane A)
      → IsBalanced capacity es m
      → publish e m ≡ some n
      → IsBalanced capacity (es ++ (e ∷ [])) n
  publish-Balanced capacity es e m n b h =
      let one = e ∷ [] in
      let longer = length-append es one in
      elim (publish-cases e m n h) [
        | inl (same, room) ↦
            let grown : (map (λ t. t.0) m.taken ++ (m.queue ++ one) ≡ accepted m ++ one) =
              sym (append_assoc (map (λ t. t.0) m.taken) m.queue one) in
            subst (IsBalanced capacity (es ++ one)) same (record {
              in_order =
                  subst (λ xs. Sublistᴰ xs (es ++ one)) (sym grown) (Sublist-keep e b.in_order);
              counted =
                  omega (arith, longer, b.counted, ap length grown, length-append (accepted m) one);
              bounded = omega (arith, length-append m.queue one, room, b.same_capacity);
              same_capacity = b.same_capacity;
            })
        | inr same ↦ subst (IsBalanced capacity (es ++ one)) same (record {
          in_order = Sublist-skip e b.in_order;
          counted = omega (arith, longer, b.counted);
          bounded = b.bounded;
          same_capacity = b.same_capacity;
        })
      ]

  -- A lane never loses count of an event. In every history of a new lane, in any interleaving of
  -- publishers, rounds of the worker and calls of `Close`: the events that the worker has taken
  -- and those that wait are, in this order, a part of what was published in its order; all other
  -- events were counted as dropped; and no more wait than the capacity.
  pub History-IsBalanced :
      {capacity : ℕ} {es : List A} {m : Lane A}
      → History (make_lane capacity) es m
      → IsBalanced capacity es m
  unfolding make_lane close
  History-IsBalanced start = record {
    in_order = slnil;
    counted = refl;
    bounded = omega arith;
    same_capacity = refl;
  }
  History-IsBalanced {capacity} (published {es} {m} e n history h) =
      publish-Balanced capacity es e m n (History-IsBalanced history) h
  History-IsBalanced {capacity} (worked {es} {m} o history) =
      work-Balanced capacity es o m (History-IsBalanced history)
  History-IsBalanced (shut {es} {m} history) =
      let b = History-IsBalanced history in
      record {
        in_order = b.in_order;
        counted = b.counted;
        bounded = b.bounded;
        same_capacity = b.same_capacity;
      }

  -- The worker, one round for each answer of Kafka
  abbrev pub works : List Bool → Lane A → Lane A
  works [] m = m
  works (o ∷ os) m = works os (work o m)

  Drained : List Bool → Bool → Lane A → Type 0
  Drained os o m =
      let l = work o (works os m) in
      (l.queue ≡ []) × (l.done ≡ true) × (map (λ t. t.0) l.taken ≡ accepted m)

  queue-Drained :
      (os : List Bool) (o : Bool) (m : Lane A) (q : List A)
      → m.queue ≡ q
      → m.closed ≡ true
      → length os ≡ length q
      → Drained os o m
  unfolding Drained work
  queue-Drained [] o m [] h shut_down enough = (
    ground (arith, h, shut_down),
    ground (arith, h, shut_down),
    ground (arith, h, shut_down, append-nil (map (λ t. t.0) m.taken)),
  )
  queue-Drained [] o m (x ∷ q) h shut_down enough = absurd (omega (arith, enough))
  queue-Drained (p ∷ os) o m [] h shut_down enough = absurd (omega (arith, enough))
  queue-Drained (p ∷ os) o m (x ∷ q) h shut_down enough =
      let (same, _, _, _) = work-keeps p m (x ∷ q) h in
      let (empty, ended, all) =
        queue-Drained os o (work p m) q (ground (arith, h)) (ground (arith, h, shut_down))
          (omega (arith, enough)) in
      (empty, ended, all ∙ same)

  -- After `Close` the worker ends once it has taken every event that waits, in their order,
  -- whatever Kafka answers: as many rounds are enough, and one more.
  pub works-Drained :
      (os : List Bool) (o : Bool) (m : Lane A)
      → m.closed ≡ true
      → length os ≡ length m.queue
      → (let l = work o (works os m) in
          (l.queue ≡ []) × (l.done ≡ true) × (map (λ t. t.0) l.taken ≡ accepted m))
  unfolding Drained
  works-Drained os o m shut_down enough = queue-Drained os o m m.queue refl shut_down enough
