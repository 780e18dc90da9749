-- ===== src/Tests/Space.antt =====
-- The space that media takes.
use convomeow.Base.{◌≡◌, refl, [], ◌∷◌, arith}
use convomeow.Core.{ok}
use convomeow.App.Quota.{Space, reserve_storage, release_storage}
use convomeow.App.Quota.Bounds.{Ledger, IsWithin, Step, Steps, steps-IsWithin}

abbrev space : Space
space = record { max_temp = 100; max_total = 1_000; reserved_temp = 0; reserved_stored = 0 }

abbrev before : Ledger
before = record { space = space; temp = []; pending = []; used = 900 }

abbrev after : Ledger
after = record {
  space = record space { reserved_stored = 60 };
  temp = [];
  pending = 60 ∷ [];
  used = 940;
}

granted : reserve_storage 40 900 space ≡ ok (record space { reserved_stored = 40 })
unfolding reserve_storage
granted = refl

granted_next :
    reserve_storage 60 900 (record space { reserved_stored = 40 })
    ≡ ok (record space { reserved_stored = 100 })
unfolding reserve_storage
granted_next = refl

before-IsWithin : IsWithin before
before-IsWithin = record {
  temp_sum = refl;
  temp_bound = omega arith;
  stored_sum = refl;
  stored_bound = omega arith;
}

-- Of two reservations, the one that came first ends first.
in_order : Steps before after
unfolding release_storage
in_order = Steps.more (Step.reserved 40 (record space { reserved_stored = 40 }) granted) (
    Steps.more (Step.reserved 60 (record space { reserved_stored = 100 }) granted_next)
      (Steps.more (Step.stored 40 (60 ∷ []) [] refl) Steps.done))

steps-IsWithin_example : IsWithin after
steps-IsWithin_example = steps-IsWithin before after in_order before-IsWithin
