-- ===== src/App/Activity/Order.antt =====
-- Go visits the leases of a conversation in any order; what the provider is told is the same.
use convomeow.Base.{◌≡◌, refl, ap, ◌∙◌, false, List, arith, All}
use mathlib.Core.Logic.{∥∥₁_elim}
use mathlib.Core.List.{Perm, Permᴰ}
use convomeow.App.Activity.{Activity, Lease, is_paused, next_state, state_of}

-- A lease is of a client that types or records: a pause deletes it.
abbrev pub IsActive : List Lease → Type 0
IsActive ls = All (λ l. is_paused l.activity ≡ false) ls

next_state_comm :
    (s : Activity) (a b : Lease)
    → is_paused a.activity ≡ false
    → is_paused b.activity ≡ false
    → next_state (next_state s a) b ≡ next_state (next_state s b) a
next_state_comm s a b h k = ground arith

state_of-perm :
    {ls ms : List Lease}
    → Permᴰ ls ms
    → (s : Activity) → IsActive ls
    → (state_of s ls ≡ state_of s ms) × IsActive ms
unfolding state_of
state_of-perm Permᴰ.nil s v = (refl, tt)
state_of-perm (Permᴰ.cons {a = a} {b = b} {l₁ = l} {l₂ = m} e d) s v =
    let (same, w) = state_of-perm d (next_state s a) v.1 in (rw (← e) same, (rw (← e) v.0, w))
state_of-perm (Permᴰ.swap {a = a} {b = b} {a' = c} {b' = d} {l = l} e f) s v =
    rw (← e, ← f) (ap (λ t. state_of t l) (next_state_comm s a b v.0 v.1.0), (v.1.0, (v.0, v.1.1)))
state_of-perm (Permᴰ.trans d e) s v =
    let (one, w) = state_of-perm d s v in let (two, u) = state_of-perm e s w in (one ∙ two, u)

Activity_set : IsSet Activity
Activity_set = hlevel

-- What the provider is told does not depend on the order in which the leases are visited, where no
-- lease is of a client that pauses.
pub state_of-order :
    (ls ms : List Lease)
    → Perm ls ms
    → IsActive ls
    → state_of Activity.paused ls ≡ state_of Activity.paused ms
state_of-order ls ms p v = ∥∥₁_elim p (Activity_set _ _) λ d. (state_of-perm d Activity.paused v).0
