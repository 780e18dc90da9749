-- ===== src/Store/Reactions/Order.antt =====
-- The order of `mergeReaction` is a strict total order on what it compares.
use convomeow.Base.{◌≡◌, true, false, arith}
use convomeow.Base.Text.{
  text_lt_irrefl, text_lt_trans, text_lt_total, text_lt_asym, text_lt_cotrans,
}
use convomeow.Store.Reactions.{Key, Row, key_eq, newer, newer_removal, newer_event}

pub key_eq_refl : (k : Key) → key_eq k k ≡ true
unfolding key_eq
key_eq_refl k = ground arith

pub eq_of_key_eq : (a b : Key) → key_eq a b ≡ true → a ≡ b
unfolding key_eq
eq_of_key_eq a b h = ground arith

newer_event_trans :
    (a b c : Row) → newer_event a b ≡ true → newer_event b c ≡ true → newer_event a c ≡ true
unfolding newer_event
newer_event_trans a b c h k = ground (
  arith,
  text_lt_trans c.event_id b.event_id a.event_id,
  text_lt_trans c.emoji b.emoji a.emoji,
  text_lt_total a.event_id b.event_id,
  text_lt_total b.event_id c.event_id,
  text_lt_asym a.event_id b.event_id,
  text_lt_asym b.event_id c.event_id,
  text_lt_asym a.event_id c.event_id,
)

newer_removal_trans :
    (a b c : Row) → newer_removal a b ≡ true → newer_removal b c ≡ true → newer_removal a c ≡ true
unfolding newer_removal
newer_removal_trans a b c h k = ground (arith, newer_event_trans a b c)

pub newer_trans : (a b c : Row) → newer a b ≡ true → newer b c ≡ true → newer a c ≡ true
unfolding newer
newer_trans a b c h k = ground (arith, newer_removal_trans a b c)

pub newer_irrefl : (a : Row) → newer a a ≡ false
unfolding newer newer_removal newer_event
newer_irrefl a = ground (arith, text_lt_irrefl a.event_id, text_lt_irrefl a.emoji)

newer_event_total :
    (a b : Row)
    → newer_event a b ≡ false
    → newer_event b a ≡ false
    → (a.event_id ≡ b.event_id) × (a.emoji ≡ b.emoji)
unfolding newer_event
newer_event_total a b h k = ground (
  arith,
  text_lt_total a.event_id b.event_id,
  text_lt_total a.emoji b.emoji,
  text_lt_asym a.event_id b.event_id,
)

-- Two rows of one key that the order does not tell apart are equal.
pub newer_total : (a b : Row) → newer a b ≡ false → newer b a ≡ false → a.key ≡ b.key → a ≡ b
unfolding newer newer_removal
newer_total a b h k e = ground (arith, newer_event_total a b)

pub newer_asym : (a b : Row) → newer a b ≡ true → newer b a ≡ false
newer_asym a b h = ground (arith, newer_trans a b a h, newer_irrefl a)

newer_event_cotrans :
    (a b c : Row) → newer_event a b ≡ false → newer_event b c ≡ false → newer_event a c ≡ false
unfolding newer_event
newer_event_cotrans a b c h k = ground (
  arith,
  text_lt_cotrans b.event_id a.event_id c.event_id,
  text_lt_cotrans c.event_id b.event_id a.event_id,
  text_lt_cotrans a.event_id b.event_id c.event_id,
  text_lt_cotrans c.emoji b.emoji a.emoji,
  text_lt_trans a.event_id b.event_id c.event_id,
  text_lt_total a.event_id b.event_id,
  text_lt_total b.event_id c.event_id,
)

newer_removal_cotrans :
    (a b c : Row)
    → newer_removal a b ≡ false
    → newer_removal b c ≡ false
    → newer_removal a c ≡ false
unfolding newer_removal
newer_removal_cotrans a b c h k = ground (arith, newer_event_cotrans a b c)

pub newer_cotrans : (a b c : Row) → newer a b ≡ false → newer b c ≡ false → newer a c ≡ false
unfolding newer
newer_cotrans a b c h k = ground (arith, newer_removal_cotrans a b c)
