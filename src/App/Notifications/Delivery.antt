-- ===== src/App/Notifications/Delivery.antt =====
-- What a client sees of the changes, on one channel.
use convomeow.Base.{
  ◌≡◌, refl, sym, ap, ◌∙◌, inl, inr, true, Option, none, some, List, [], ◌∷◌, ◌++◌, arith,
  Option-cases,
}
use mathlib.Core.List.{append_assoc, append-nil}
use convomeow.App.Notifications.{◌>>=◌, Notification, Channel, offer, head_of, tail_of}

-- What happens on a channel: a change is published, or the client receives.
pub data Action : Type 0 where
  publish : Notification → Action
  receive : Action

pub record Run : Type 0 where
  pub channel : Channel
  pub received : List Notification

abbrev taken : Option Notification → List Notification
taken none = []
taken (some n) = n ∷ []

abbrev with_channel : Run → Option Channel → Option Run
with_channel r none = none
with_channel r (some ch) = some (record r { channel = ch })

unfoldable pub act : Action → Run → Option Run
act (Action.publish change) r = with_channel r (offer change r.channel)
act Action.receive r = some (record {
  channel = record r.channel { buffer = tail_of r.channel.buffer };
  received = r.received ++ taken (head_of r.channel.buffer);
})

unfoldable pub run : List Action → Run → Option Run
run [] r = some r
run (a ∷ actions) r = do next ← act a r; run actions next

pub published : List Action → List Notification
published [] = []
published (Action.publish n ∷ actions) = n ∷ published actions
published (Action.receive ∷ actions) = published actions

-- What the client has or will have.
abbrev pub seen : Run → List Notification
seen r = r.received ++ r.channel.buffer

offer-buffer :
    (n : Notification) (ch after : Channel)
    → offer n ch ≡ some after
    → after.registered ≡ true
    → (ch.registered ≡ true) × (after.buffer ≡ ch.buffer ++ n ∷ [])
unfolding offer
offer-buffer n ch after e k = ground arith

receive-seen : (xs ys : List Notification) → xs ++ taken (head_of ys) ++ tail_of ys ≡ xs ++ ys
receive-seen xs [] = append-nil (xs ++ [])
receive-seen xs (y ∷ ys) = append_assoc xs (y ∷ []) ys

act-seen :
    (a : Action) (r after : Run)
    → act a r ≡ some after
    → after.channel.registered ≡ true
    → (r.channel.registered ≡ true) × (seen after ≡ seen r ++ published (a ∷ []))
unfolding act published
act-seen (Action.publish n) r after e k = elim (Option-cases (offer n r.channel)) [
  | inl f ↦ ground (arith, f)
  | inr (ch, f) ↦
      let same : record r { channel = ch } ≡ after = ground (arith, f) in
      let k2 : ch.registered ≡ true = ap (λ (x : Run). x.channel.registered) same ∙ k in
      let (before, grown) = offer-buffer n r.channel ch f k2 in
      (
        before,
        ap seen (sym same)
            ∙ (ap (λ b. r.received ++ b) grown
                ∙ sym (append_assoc r.received r.channel.buffer (n ∷ []))),
      )
]
act-seen Action.receive r after e k =
    let same : record r {
      channel = record r.channel { buffer = tail_of r.channel.buffer };
      received = r.received ++ taken (head_of r.channel.buffer);
    }
        ≡ after =
      ground arith in
    (
      ground arith,
      ap seen (sym same) ∙ (receive-seen r.received r.channel.buffer ∙ sym (append-nil (seen r))),
    )

published-cons :
    (a : Action) (actions : List Action)
    → published (a ∷ actions) ≡ published (a ∷ []) ++ published actions
unfolding published
published-cons (Action.publish n) actions = refl
published-cons Action.receive actions = refl

-- A client whose channel is still registered has missed nothing: what it has received and what is
-- buffered are, in order, what it had and what was published since.
pub run-seen :
    (actions : List Action) (r after : Run)
    → run actions r ≡ some after
    → after.channel.registered ≡ true
    → (r.channel.registered ≡ true) × (seen after ≡ seen r ++ published actions)
unfolding run published
run-seen [] r after e k =
    let same : r ≡ after = ground arith in
    (
      ap (λ (x : Run). x.channel.registered) same ∙ k,
      ap seen (sym same) ∙ sym (append-nil (seen r)),
    )
run-seen (a ∷ actions) r after e k = elim (Option-cases (act a r)) [
  | inl f ↦ ground (arith, f)
  | inr (next, f) ↦
      let (k2, rest) = run-seen actions next after (ground (arith, f)) k in
      let (k3, first) = act-seen a r next f k2 in
      (
        k3,
        rest
            ∙ (ap (λ x. x ++ published actions) first
                ∙ (append_assoc (seen r) (published (a ∷ [])) (published actions)
                    ∙ ap (λ x. seen r ++ x) (sym (published-cons a actions)))),
      )
]
