-- ===== src/Tests/Kafka.antt =====
-- A lane of capacity one: a drop, a write that fails, and the end.
use central_auth.Common.{ℕ, ◌≡◌, refl, true, false, [], ◌∷◌, map}
use central_auth.Kafka.{Lane, make_lane, publish, work, close}
use central_auth.Kafka.Balance.{
  History, start, published, worked, IsBalanced, History-IsBalanced, works, accepted, works-Drained,
}

abbrev waiting : Lane ℕ
waiting = record {
  capacity = 1;
  queue = 7 ∷ [];
  closed = false;
  dropped = 0;
  taken = [];
  done = false;
}

abbrev full : Lane ℕ
full = record waiting { dropped = 1 }

history : History (make_lane 1) (7 ∷ 8 ∷ []) (work false full)
unfolding publish make_lane
history = worked false (published 8 full (published 7 waiting start refl) refl)

History-IsBalanced_example : IsBalanced 1 (7 ∷ 8 ∷ []) (work false full)
History-IsBalanced_example = History-IsBalanced history

works-Drained_example :
    (let l = work true (works (false ∷ []) (close full)) in
      (l.queue ≡ []) × (l.done ≡ true) × (map (λ t. t.0) l.taken ≡ accepted (close full)))
unfolding close
works-Drained_example = works-Drained (false ∷ []) true (close full) refl refl
