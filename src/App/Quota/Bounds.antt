-- ===== src/App/Quota/Bounds.antt =====
-- What is reserved and what is stored stay below the limits together.
use convomeow.Base.{ℕ, ◌+◌, ◌≤◌, ◌≡◌, ap, List, [], ◌∷◌, arith, ◌++◌, ◌∙◌}
use convomeow.Core.{ok}
use convomeow.App.Quota.{Space, reserve_temp, release_temp, reserve_storage, release_storage}

-- The space, the sizes that are reserved at the moment, and the bytes that are stored.
pub record Ledger : Type 0 where
  pub space : Space
  pub temp : List ℕ
  pub pending : List ℕ
  pub used : ℕ

abbrev pub total : List ℕ → ℕ
total [] = 0
total (x ∷ xs) = x + total xs

-- The counters are the sums of what is reserved, and the limits hold.
pub record IsWithin (l : Ledger) : Type 0 where
  pub temp_sum : l.space.reserved_temp ≡ total l.temp
  pub temp_bound : total l.temp ≤ l.space.max_temp
  pub stored_sum : l.space.reserved_stored ≡ total l.pending
  pub stored_bound : l.used + total l.pending ≤ l.space.max_total

-- A reservation that the code grants, the release of any that is held, and the object that a
-- reservation of storage was for: it is written and recorded before the reservation is released.
pub data Step : Ledger → Ledger → Type 0 where
  staged :
      {l : Ledger} (size : ℕ) (after : Space)
      → reserve_temp size l.space ≡ ok after
      → Step l (record l { space = after; temp = size ∷ l.temp })
  unstaged :
      {l : Ledger} (size : ℕ) (front rest : List ℕ)
      → l.temp ≡ front ++ size ∷ rest
      → Step l (record l { space = release_temp size l.space; temp = front ++ rest })
  reserved :
      {l : Ledger} (size : ℕ) (after : Space)
      → reserve_storage size l.used l.space ≡ ok after
      → Step l (record l { space = after; pending = size ∷ l.pending })
  stored :
      {l : Ledger} (size : ℕ) (front rest : List ℕ)
      → l.pending ≡ front ++ size ∷ rest
      → Step l (record l {
        space = release_storage size l.space;
        pending = front ++ rest;
        used = l.used + size;
      })
  abandoned :
      {l : Ledger} (size : ℕ) (front rest : List ℕ)
      → l.pending ≡ front ++ size ∷ rest
      → Step l (record l { space = release_storage size l.space; pending = front ++ rest })
  deleted : {l : Ledger} (used : ℕ) → used ≤ l.used → Step l (record l { used = used })

pub data Steps : Ledger → Ledger → Type 0 where
  done : {l : Ledger} → Steps l l
  more : {l m n : Ledger} → Step l m → Steps m n → Steps l n

reserve_temp-eq :
    (size : ℕ) (s after : Space)
    → reserve_temp size s ≡ ok after
    → (after ≡ record s { reserved_temp = s.reserved_temp + size })
      × (s.reserved_temp + size ≤ s.max_temp)
unfolding reserve_temp
reserve_temp-eq size s after e = ground arith

reserve_storage-eq :
    (size used : ℕ) (s after : Space)
    → reserve_storage size used s ≡ ok after
    → (after ≡ record s { reserved_stored = s.reserved_stored + size })
      × (used + s.reserved_stored + size ≤ s.max_total)
unfolding reserve_storage
reserve_storage-eq size used s after e = ground arith

total-held :
    (size : ℕ) (front rest : List ℕ) → total (front ++ size ∷ rest) ≡ size + total (front ++ rest)
total-held size [] rest = omega arith
total-held size (x ∷ front) rest = omega (arith, total-held size front rest)

step-IsWithin : (l m : Ledger) → Step l m → IsWithin l → IsWithin m
unfolding release_temp release_storage
step-IsWithin l m (Step.staged size after e) v =
    let (same, bound) = reserve_temp-eq size l.space after e in
    record {
      temp_sum = ground (arith, same, v.temp_sum);
      temp_bound = ground (arith, same, bound, v.temp_sum);
      stored_sum = ground (arith, same, v.stored_sum);
      stored_bound = ground (arith, same, v.stored_bound);
    }
step-IsWithin l m (Step.unstaged size front rest e) v =
    let sum : total l.temp ≡ size + total (front ++ rest) =
      ap total e ∙ total-held size front rest in
    record {
      temp_sum = omega (arith, sum, v.temp_sum);
      temp_bound = omega (arith, sum, v.temp_bound);
      stored_sum = v.stored_sum;
      stored_bound = v.stored_bound;
    }
step-IsWithin l m (Step.reserved size after e) v =
    let (same, bound) = reserve_storage-eq size l.used l.space after e in
    record {
      temp_sum = ground (arith, same, v.temp_sum);
      temp_bound = ground (arith, same, v.temp_bound);
      stored_sum = ground (arith, same, v.stored_sum);
      stored_bound = ground (arith, same, bound, v.stored_sum);
    }
step-IsWithin l m (Step.stored size front rest e) v =
    let sum : total l.pending ≡ size + total (front ++ rest) =
      ap total e ∙ total-held size front rest in
    record {
      temp_sum = v.temp_sum;
      temp_bound = v.temp_bound;
      stored_sum = omega (arith, sum, v.stored_sum);
      stored_bound = omega (arith, sum, v.stored_bound);
    }
step-IsWithin l m (Step.abandoned size front rest e) v =
    let sum : total l.pending ≡ size + total (front ++ rest) =
      ap total e ∙ total-held size front rest in
    record {
      temp_sum = v.temp_sum;
      temp_bound = v.temp_bound;
      stored_sum = omega (arith, sum, v.stored_sum);
      stored_bound = omega (arith, sum, v.stored_bound);
    }
step-IsWithin l m (Step.deleted used h) v = record {
  temp_sum = v.temp_sum;
  temp_bound = v.temp_bound;
  stored_sum = v.stored_sum;
  stored_bound = omega (arith, h, v.stored_bound);
}

-- In every order of reservations, releases of any that is held, stored objects and deletions, the
-- counters stay the sums of what is reserved, the staging files stay below their limit, and so do the stored objects
-- together with those that are still to be stored.
pub steps-IsWithin : (l m : Ledger) → Steps l m → IsWithin l → IsWithin m
steps-IsWithin l m Steps.done v = v
steps-IsWithin l m (Steps.more step rest) v = steps-IsWithin _ m rest (step-IsWithin l _ step v)
