-- ===== src/Ctos/Messages/Entries.antt =====
-- The entries of `MessageArray` of common/ctos.c and the list of message queues.
use my_common.Common.{
  ℕ, ◌≤◌, ◌<◌, ◌≢◌, Bool, true, false, Option, none, some, List, [], ◌∷◌, ◌++◌, length, set,
  get_elem?, get_elem?-set_self, get_elem?-set_other, length-set, total, total-set, length-append,
  All, All-append, All-right, All-without, ltb, ◌==◌, ◌≡◌, refl, sym, ap, subst, ◌∙◌, arith,
}
use my_common.Common.Distinct.{DistinctBy, DistinctBy-middle, DistinctBy-without, DistinctBy-snoc}
use my_common.Ctos.Messages.{queue_nb_max}
use my_common.Ctos.Messages.Registry.{Queue, first_free, remove_queue}

abbrev pub is_taken : Option (Option ℕ) → Bool
is_taken none = false
is_taken (some none) = false
is_taken (some (some a)) = true

abbrev pub weight : Option ℕ → ℕ
weight none = 0
weight (some a) = 1

-- Each queue has an entry of its own, and no other entry is taken.
pub record IsValid (ms : List (Option ℕ)) (qs : List Queue) : Type 0 where
  pub sizes : length ms ≡ queue_nb_max
  pub taken : All (λ q. is_taken (get_elem? ms q.index) ≡ true) qs
  pub by_index : DistinctBy Queue.index qs
  pub by_address : DistinctBy Queue.address qs
  pub counted : total weight ms ≡ length qs

first_free-none :
    (ms : List (Option ℕ)) → first_free ms < length ms → get_elem? ms (first_free ms) ≡ some none
first_free-none [] h = absurd (omega arith)
first_free-none (none ∷ ms) h = refl
first_free-none (some a ∷ ms) h = first_free-none ms (omega arith)

total-le : (ms : List (Option ℕ)) → total weight ms ≤ length ms
total-le [] = omega arith
total-le (none ∷ ms) = omega (arith, total-le ms)
total-le (some a ∷ ms) = omega (arith, total-le ms)

pub first_free-total :
    (ms : List (Option ℕ)) → ltb (first_free ms) (length ms) ≡ ltb (total weight ms) (length ms)
first_free-total [] = refl
first_free-total (none ∷ ms) = ground (arith, total-le ms)
first_free-total (some a ∷ ms) = ground (arith, first_free-total ms)

remove_queue-middle :
    (qs : List Queue) (q : Queue) (qs' : List Queue)
    → DistinctBy Queue.address (qs ++ (q ∷ qs'))
    → remove_queue q.address (qs ++ (q ∷ qs')) ≡ qs ++ qs'
remove_queue-middle [] q qs' d = ground arith
remove_queue-middle (x ∷ qs) q qs' d =
    let apart : q.address ≢ x.address =
      (All-right (λ y. y.address ≢ x.address) qs (q ∷ qs') d.0).0 in
    let other : (x.address == q.address) ≡ false = ground (arith, apart) in
    rw (other, remove_queue-middle qs q qs' d.1) refl

-- Another entry than a taken one.
taken-other :
    (ms : List (Option ℕ)) (i : ℕ) (qs : List Queue)
    → get_elem? ms i ≡ some none
    → All (λ q. is_taken (get_elem? ms q.index) ≡ true) qs
    → All (λ q. q.index ≢ i) qs
taken-other ms i [] free t = tt
taken-other ms i (q ∷ qs) free t = (
  λ e.
      let none_there : get_elem? ms q.index ≡ some none = ap (get_elem? ms) e ∙ free in
      ground (arith, t.0, none_there),
  taken-other ms i qs free t.1,
)

taken-set :
    (ms : List (Option ℕ)) (i : ℕ) (m : Option ℕ) (qs : List Queue)
    → All (λ q. q.index ≢ i) qs
    → All (λ q. is_taken (get_elem? ms q.index) ≡ true) qs
    → All (λ q. is_taken (get_elem? (set ms i m) q.index) ≡ true) qs
taken-set ms i m [] out t = tt
taken-set ms i m (q ∷ qs) out t =
    (rw (get_elem?-set_other ms i q.index m out.0) t.0, taken-set ms i m qs out.1 t.1)

-- One more queue, at the first free entry.
pub create-IsValid :
    (ms : List (Option ℕ)) (qs : List Queue) (a : ℕ) (q : Queue)
    → IsValid ms qs
    → first_free ms < queue_nb_max
    → q.index ≡ first_free ms
    → All (λ x. x.address ≢ q.address) qs
    → IsValid (set ms (first_free ms) (some a)) (qs ++ (q ∷ []))
create-IsValid ms qs a q v free at new =
    let i = first_free ms in
    let none_there : get_elem? ms i ≡ some none = first_free-none ms (omega (arith, v.sizes)) in
    let others = taken-other ms i qs none_there v.taken in
    let there : get_elem? (set ms i (some a)) q.index ≡ some (some a) =
      ap (get_elem? (set ms i (some a))) at ∙ get_elem?-set_self ms i (some a) none none_there in
    record {
      sizes = length-set ms i (some a) ∙ v.sizes;
      taken =
          All-append (λ x. is_taken (get_elem? (set ms i (some a)) x.index) ≡ true) qs (q ∷ [])
            (taken-set ms i (some a) qs others v.taken) (ap is_taken there, tt);
      by_index =
          DistinctBy-snoc Queue.index qs q (subst (λ j. All (λ x. x.index ≢ j) qs) (sym at) others)
            v.by_index;
      by_address = DistinctBy-snoc Queue.address qs q new v.by_address;
      counted = omega (
        arith,
        v.counted,
        length-append qs (q ∷ []),
        total-set weight ms i (some a) none none_there,
      );
    }

taken_at : (m : Option (Option ℕ)) → is_taken m ≡ true → (a : ℕ) × (m ≡ some (some a))
taken_at none h = cc
taken_at (some none) h = cc
taken_at (some (some a)) h = (a, refl)

pub delete-IsValid :
    (ms : List (Option ℕ)) (qs : List Queue) (q : Queue) (qs' : List Queue)
    → IsValid ms (qs ++ (q ∷ qs'))
    → IsValid (set ms q.index none) (remove_queue q.address (qs ++ (q ∷ qs')))
delete-IsValid ms qs q qs' v =
    let (a, there) =
      taken_at (get_elem? ms q.index)
        (All-right (λ x. is_taken (get_elem? ms x.index) ≡ true) qs (q ∷ qs') v.taken).0 in
    rw (remove_queue-middle qs q qs' v.by_address) (record {
      sizes = length-set ms q.index none ∙ v.sizes;
      taken =
          taken-set ms q.index none (qs ++ qs') (DistinctBy-middle Queue.index qs q qs' v.by_index)
            (All-without (λ x. is_taken (get_elem? ms x.index) ≡ true) qs q qs' v.taken);
      by_index = DistinctBy-without Queue.index qs q qs' v.by_index;
      by_address = DistinctBy-without Queue.address qs q qs' v.by_address;
      counted = omega (
        arith,
        v.counted,
        length-append qs (q ∷ qs'),
        length-append qs qs',
        total-set weight ms q.index none (some a) there,
      );
    })
