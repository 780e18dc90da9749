-- ===== src/Store/Links/Symmetric.antt =====
-- Links lead both ways.
use convomeow.Base.{
  ℕ, ◌≡◌, refl, ◌∙◌, inl, inr, Bool, ◌&&◌, ◌||◌, List, [], ◌∷◌, arith, ◌==◌, Bool-cases,
}
use convomeow.Base.Tables.{any, any-append}
use convomeow.Store.Tables.{Link}
use convomeow.Store.Links.{insert_link, link_pair}

-- Whether an account has a link from one identifier to another.
abbrev pub has_link : ℕ → ℕ → ℕ → List Link → Bool
has_link account a b links =
    any (λ r. r.account_id == account && (r.jid == a && r.peer_jid == b)) links

has_link_same :
    (links : List Link) (i j a x b y : ℕ)
    → i ≡ j
    → a ≡ x
    → b ≡ y
    → has_link i a b links ≡ has_link j x y links
has_link_same links i j a x b y e f g = rw (e, f, g) refl

has_link-insert_link :
    (account a b : ℕ) (l : Link) (links : List Link)
    → has_link account a b (insert_link l links)
      ≡ (has_link account a b links || (l.account_id == account && (l.jid == a && l.peer_jid == b)))
unfolding insert_link
has_link-insert_link account a b l links =
    elim (Bool-cases (has_link l.account_id l.jid l.peer_jid links)) [
      | inl there ↦
          rw there (elim (Bool-cases (l.account_id == account && (l.jid == a && l.peer_jid == b))) [
            | inl same ↦ ground (
              arith,
              same,
              has_link_same links l.account_id account l.jid a l.peer_jid b (ground (arith, same))
                  (ground (arith, same)) (ground (arith, same)),
              there,
            )
            | inr other ↦ rw other (ground arith)
          ])
      | inr new ↦ rw new (
          any-append (λ r. r.account_id == account && (r.jid == a && r.peer_jid == b)) links
            (l ∷ [])
          ∙ ground arith)
    ]

-- A table in which every link has its reverse keeps this when two identifiers are linked.
pub link_pair-symmetric :
    (account first second k a b : ℕ) (links : List Link)
    → ((i x y : ℕ) → has_link i x y links ≡ has_link i y x links)
    → has_link k a b (link_pair account first second links)
      ≡ has_link k b a (link_pair account first second links)
unfolding link_pair
link_pair-symmetric account first second k a b links h =
    let one : Link = record { account_id = account; jid = first; peer_jid = second } in
    let two : Link = record { account_id = account; jid = second; peer_jid = first } in
    ground (
      arith,
      h k a b,
      has_link-insert_link k a b two (insert_link one links),
      has_link-insert_link k b a two (insert_link one links),
      has_link-insert_link k a b one links,
      has_link-insert_link k b a one links,
    )
