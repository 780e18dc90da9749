-- ===== src/Store/Chats.antt =====
-- internal/store/sqlite/aliases.go and conversations.go: the conversation that the identifiers of a
-- chat lead to.
pub mod Joined
pub mod Again
pub mod Total
use convomeow.Base.{
  ℕ, ◌+◌, Bool, true, false, ◌&&◌, ◌||◌, Option, none, some, List, [], ◌∷◌, ◌++◌, ltb, ◌==◌,
  if◌then◌else◌,
}
use convomeow.Base.Tables.{find_where, any, update_where}
use convomeow.Core.{Result, ok, err, Error, invalid, conflict, not_found}
use convomeow.Store.Tables.{Conversation, Alias, Database}
use convomeow.Store.Links.{linked_jids, link_pair}
use convomeow.Store.Conversations.{refresh_conversation}
use convomeow.Store.Merge.{merge_conversation}

-- A call of the database that loops: `none` means that fuel ran out, which it does not.
abbrev pub Run {ℓ} : Type ℓ → Type ℓ
Run V = Option (Result V)

infixl 5 ◌>>=◌
abbrev pub ◌>>=◌ {κ ℓ} : {V : Type κ} {W : Type ℓ} → Run V → (V → Run W) → Run W
none >>= next = none
some (err e) >>= next = some (err e)
some (ok v) >>= next = next v

abbrev pub done {ℓ} : {V : Type ℓ} → V → Run V
done v = some (ok v)

abbrev pub fail {ℓ} : {V : Type ℓ} → Error → Run V
fail e = some (err e)

-- What is drawn and read from outside: identifiers of conversations and of attachments.
pub record Draw : Type 0 where
  pub conversation : ℕ
  pub attachment : ℕ → ℕ

abbrev pub by_jid : ℕ → ℕ → Alias → Bool
by_jid account jid a = a.account_id == account && a.jid == jid

abbrev pub has_id : ℕ → Conversation → Bool
has_id id c = c.id == id

-- The conversation of one identifier.
abbrev pub candidate : ℕ → ℕ → Database → Option Conversation
candidate account jid db = elim (find_where (by_jid account jid) db.aliases) [
  | none ↦ none
  | some a ↦ find_where (has_id a.conversation_id) db.conversations
]

abbrev pub add_candidate : Option Conversation → List Conversation → List Conversation
add_candidate none cs = cs
add_candidate (some c) cs = if any (has_id c.id) cs then cs else c ∷ cs

-- The conversations of the identifiers, each once.
pub candidates : ℕ → List ℕ → Database → List Conversation
candidates account [] db = []
candidates account (j ∷ jids) db =
    add_candidate (candidate account j db) (candidates account jids db)

abbrev pub is_before : Conversation → Conversation → Bool
is_before a b =
    if a.created_at == b.created_at then ltb a.id b.id else ltb a.created_at b.created_at

pub insert_sorted : Conversation → List Conversation → List Conversation
insert_sorted c [] = c ∷ []
insert_sorted c (d ∷ ds) = if is_before d c then d ∷ insert_sorted c ds else c ∷ d ∷ ds

-- The oldest conversation comes first.
pub sort : List Conversation → List Conversation
unfolding insert_sorted
sort [] = []
sort (c ∷ cs) = insert_sorted c (sort cs)

-- The duplicates are merged into the conversation that stays.
unfoldable pub merge_duplicates : Draw → ℕ → List Conversation → Database → Run Database
unfolding merge_conversation
merge_duplicates draw target [] db = done db
merge_duplicates draw target (c ∷ cs) db =
    merge_conversation draw.attachment target c.id db >>= merge_duplicates draw target cs

-- `INSERT INTO conversation_aliases … ON CONFLICT … DO UPDATE`
unfoldable pub save_alias : ℕ → ℕ → ℕ → List Alias → List Alias
save_alias account conversation jid rows =
    if any (by_jid account jid) rows
    then update_where (by_jid account jid) (λ a. record a { conversation_id = conversation }) rows
    else rows ++ record { account_id = account; jid = jid; conversation_id = conversation } ∷ []

unfoldable pub save_aliases : ℕ → ℕ → List ℕ → List Alias → List Alias
unfolding save_alias
save_aliases account conversation [] rows = rows
save_aliases account conversation (j ∷ jids) rows =
    save_aliases account conversation jids (save_alias account conversation j rows)

abbrev pub new_conversation : ℕ → ℕ → ℕ → ℕ → Conversation
new_conversation id account chat at = record {
  id = id;
  account_id = account;
  provider_chat_id = chat;
  is_group = false;
  display_name = 0;
  description = 0;
  created_at = at;
  updated_at = at;
  last_message_id = 0;
}

-- The insertion: one conversation for each chat of an account.
abbrev pub insert_conversation : Conversation → Database → Run Database
insert_conversation c db =
    if any (has_id c.id) db.conversations
      || any (λ r. r.account_id == c.account_id && r.provider_chat_id == c.provider_chat_id)
          db.conversations
    then fail conflict
    else done (record db { conversations = db.conversations ++ c ∷ [] })

pub record Ensured : Type 0 where
  pub conversation : Conversation
  pub created : Bool
  pub after : Database

abbrev pub with_found : Bool → Database → Option Conversation → Run Ensured
with_found created after none = fail not_found
with_found created after (some c) =
    done (record { conversation = c; created = created; after = after })

abbrev pub aliased : ℕ → ℕ → List ℕ → Database → Database
aliased account id jids db = record db { aliases = save_aliases account id jids db.aliases }

-- The aliases of the conversation that stays, and the answer.
unfoldable pub with_aliases : ℕ → ℕ → List ℕ → Bool → Database → Run Ensured
unfolding save_aliases
with_aliases account id jids created db =
    with_found created (aliased account id jids db) (find_where (has_id id) db.conversations)

unfoldable pub ensure_among : Draw → ℕ → ℕ → ℕ → List ℕ → List Conversation → Database → Run Ensured
unfolding with_aliases merge_duplicates
ensure_among draw account chat at jids [] db =
    insert_conversation (new_conversation draw.conversation account chat at) db
    >>= with_aliases account draw.conversation jids true
ensure_among draw account chat at jids (c ∷ cs) db =
    merge_duplicates draw c.id cs db >>= with_aliases account c.id jids false

abbrev pub with_jids : Draw → ℕ → ℕ → ℕ → Database → Option (List ℕ) → Run Ensured
with_jids draw account chat at db none = none
with_jids draw account chat at db (some jids) =
    ensure_among draw account chat at jids (sort (candidates account jids db)) db

-- `ensureConversationTx`
unfoldable pub ensure_conversation : Draw → ℕ → ℕ → List ℕ → ℕ → Database → Run Ensured
unfolding ensure_among candidates sort linked_jids
ensure_conversation draw account chat aliases at db =
    if account == 0 || chat == 0
    then fail invalid
    else with_jids draw account chat at db (linked_jids account (chat ∷ aliases) db.links)

-- `GetOrCreateConversation`
pub get_or_create_conversation : Draw → ℕ → ℕ → ℕ → Database → Run Ensured
unfolding ensure_conversation
get_or_create_conversation draw account chat now db =
    ensure_conversation draw account chat [] now db

-- `FindConversationID`
unfoldable pub find_conversation_id : ℕ → ℕ → Database → Result ℕ
find_conversation_id account chat db = elim (find_where (by_jid account chat) db.aliases) [
  | none ↦ err not_found
  | some a ↦ ok a.conversation_id
]

abbrev refreshed : Ensured → Run Database
refreshed e = done (refresh_conversation e.conversation.id e.after)

-- `addChatLinkTx`, on the tables of conversations: the merges of reactions and of receipts are
-- those of Store.Reactions and Store.Receipts.
unfoldable pub add_chat_link : Draw → ℕ → ℕ → ℕ → ℕ → Database → Run Database
unfolding ensure_conversation
add_chat_link draw account first second now db =
    let linked = record db { links = link_pair account first second db.links } in
    let ensured = ensure_conversation draw account first (second ∷ []) now linked >>= refreshed in
    if first == 0 || (second == 0 || first == second)
    then done db
    else if any (by_jid account first) db.aliases || any (by_jid account second) db.aliases
    then ensured
    else done linked

-- `core.ChatProfile`; 0 leaves a name as it is, and `none` the kind.
pub record ChatProfile : Type 0 where
  pub chat_id : ℕ
  pub alternate_id : ℕ
  pub is_group : Option Bool
  pub display_name : Option ℕ
  pub description : Option ℕ
  pub create : Bool

abbrev or_old : Option ℕ → ℕ → ℕ
or_old none old = old
or_old (some new) old = new

abbrev profile_row : ChatProfile → Conversation → Conversation
profile_row p c = record c {
  is_group = elim p.is_group [ none ↦ c.is_group | some g ↦ g ];
  display_name = or_old p.display_name c.display_name;
  description = or_old p.description c.description;
}

-- `updateChatProfileTx`, for a kind that is known or left out.
abbrev pub update_profile : ℕ → ChatProfile → Database → Database
update_profile id p db = record db {
  conversations = update_where (has_id id) (profile_row p) db.conversations;
}

abbrev profile_ensured : ChatProfile → Ensured → Run Database
profile_ensured p e = done (update_profile e.conversation.id p e.after)

-- The part of `UpdateChatProfile` behind the links.
pub profile_linked : Draw → ℕ → ChatProfile → ℕ → Database → Run Database
unfolding ensure_conversation
profile_linked draw account p now db =
    let ensured = ensure_conversation draw account p.chat_id [] now db >>= profile_ensured p in
    elim (find_where (by_jid account p.chat_id) db.aliases) [
      | some a ↦ done (update_profile a.conversation_id p db)
      | none ↦ if p.create then ensured else done db
    ]

-- `UpdateChatProfile`
pub update_chat_profile : Draw → ℕ → ChatProfile → ℕ → Database → Run Database
unfolding profile_linked add_chat_link
update_chat_profile draw account p now db =
    let linked =
      add_chat_link draw account p.chat_id p.alternate_id now db
      >>= profile_linked draw account p now in
    let known =
      any (by_jid account p.chat_id) db.aliases || any (by_jid account p.alternate_id) db.aliases in
    if account == 0 || p.chat_id == 0
    then fail invalid
    else if p.alternate_id == 0
    then profile_linked draw account p now db
    else if known || p.create
    then linked
    else done db
