-- ===== src/Core.antt =====
-- internal/core: the enumerations, the errors and the checks that the components share. A text
-- that the code only compares, for equality or for order, is a number; 0 is the empty text. A time
-- is a number of nanoseconds, and 0 is Go's zero time.
use convomeow.Base.{
  ℕ, ◌≡◌, refl, ◌⊎◌, inl, inr, Bool, true, false, Option, none, some, if◌then◌else◌,
}

-- The errors of internal/core/types.go, groups.go, capabilities.go and message_changes.go, and any
-- other, such as one of the database, of the provider or of the file system.
pub data Error : Type 0 where
  not_found conflict invalid not_connected idempotency media_unavailable media_too_large : Error
  media_quota media_storage media_busy unsupported forbidden change_unconfirmed : Error
  other : ℕ → Error

-- A value, or the error that a call returned in place of it.
pub data Result {κ} (V : Type κ) : Type κ where
  err : Error → Result V
  ok : V → Result V

abbrev pub or_fail {κ} : {V : Type κ} → Option V → Error → Result V
or_fail (some found) missing = ok found
or_fail none missing = err missing

-- The next statement of a function that returns early on an error.
infixl 5 ◌>>=◌
abbrev pub ◌>>=◌ {κ ℓ} : {V : Type κ} {W : Type ℓ} → Result V → (V → Result W) → Result W
err failure >>= next = err failure
ok value >>= next = next value

-- An early return of an error.
abbrev pub fail_if : Bool → Error → Result (Unit {0})
fail_if b failure = if b then err failure else ok tt

infixl 5 ◌>>◌
abbrev pub ◌>>◌ {κ} : {W : Type κ} → Result (Unit {0}) → Result W → Result W
check >> rest = check >>= λ done. rest

pub Result-cases {ℓ} :
    {A : Type ℓ} (r : Result A) → ((a : A) × (r ≡ ok a)) ⊎ ((e : Error) × (r ≡ err e))
Result-cases (ok a) = inl (a, refl)
Result-cases (err e) = inr (e, refl)

-- `unset` is the empty text, here and below.
pub data Direction : Type 0 where
  unset inbound outbound : Direction

abbrev pub is_outbound : Direction → Bool
is_outbound Direction.outbound = true
is_outbound _ = false

abbrev pub is_inbound : Direction → Bool
is_inbound Direction.inbound = true
is_inbound _ = false

pub data MessageState : Type 0 where
  unset queued sent failed outcome_unknown received : MessageState

abbrev pub is_queued : MessageState → Bool
is_queued MessageState.queued = true
is_queued _ = false

-- `state IN ('queued', 'outcome_unknown')`
abbrev pub is_open : MessageState → Bool
is_open MessageState.queued = true
is_open MessageState.outcome_unknown = true
is_open _ = false

abbrev pub is_sent : MessageState → Bool
is_sent MessageState.sent = true
is_sent _ = false

-- The states that `CompleteSend` and `CompleteMediaSend` accept.
abbrev pub is_result : MessageState → Bool
is_result MessageState.sent = true
is_result MessageState.failed = true
is_result MessageState.outcome_unknown = true
is_result _ = false

-- `MessageKind`
pub data Kind : Type 0 where
  unset text image video audio document sticker location contact : Kind

-- What `mime.ParseMediaType` may return that the code tells apart.
pub data MediaType : Type 0 where
  empty jpeg png webp mp4_video threegpp mpeg mp4_audio ogg aac amr : MediaType
  other : ℕ → MediaType

abbrev allows : Kind → MediaType → Bool
allows Kind.image MediaType.jpeg = true
allows Kind.image MediaType.png = true
allows Kind.image MediaType.webp = true
allows Kind.video MediaType.mp4_video = true
allows Kind.video MediaType.threegpp = true
allows Kind.audio MediaType.mpeg = true
allows Kind.audio MediaType.mp4_audio = true
allows Kind.audio MediaType.ogg = true
allows Kind.audio MediaType.aac = true
allows Kind.audio MediaType.amr = true
allows Kind.document MediaType.empty = false
allows Kind.document _ = true
allows Kind.sticker MediaType.webp = true
allows _ _ = false

-- `ValidateMediaType`, after the value has been parsed; `none` is a parse error.
unfoldable pub validate_media_type : Kind → Option MediaType → Result (Unit {0})
validate_media_type kind none = err invalid
validate_media_type kind (some t) = if allows kind t then ok tt else err invalid

abbrev pub millisecond : ℕ
millisecond = 1_000_000

abbrev pub second : ℕ
second = 1_000_000_000

-- A chain succeeds only through a first step that succeeds; its parts stay shut.
pub >>=-eq-ok {κ ℓ} :
    {V : Type κ} {W : Type ℓ} (first : Result V) (next : V → Result W) {end : W}
    → (first >>= next) ≡ ok end
    → (value : V) × (first ≡ ok value) × (next value ≡ ok end)
>>=-eq-ok (err failure) next through = cc
>>=-eq-ok (ok value) next through = (value, refl, through)
