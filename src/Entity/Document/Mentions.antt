-- ===== src/Entity/Document/Mentions.antt =====
-- The mentions of a chunk that entity/graph_build.rs collects, as a set of keys and then as rows.
use wend_rag.Base.{
  ℕ, List, [], ◌∷◌, ◌++◌, true, if◌then◌else◌, any, All, All-append, Any, Any-append-left,
  Any-append-right, Any-any, inl, inr, ◌≡◌, ap, ◌∙◌, sym, subst, arith, Bool-cases,
}
use wend_rag.Base.Text.Laws.{text_eq_iff}
use wend_rag.Entity.Graph.{Key, key_eq, mention}
use wend_rag.Entity.Graph.Endpoints.{key_eq_refl}
use wend_rag.Entity.Document.{EntityMention, mention_eq, insert_mentions}

-- The key is among the keys, and the chunk mentions the key.
abbrev pub HasKey : List Key → Key → Type 0
HasKey keys k = Any (λ l. key_eq k l ≡ true) keys

abbrev pub IsMentioned : List EntityMention → ℕ → Key → Type 0
IsMentioned ms i k = Any (λ m. mention_eq (record { chunk_index = i; key = k }) m ≡ true) ms

pub mention-HasKey : (k : Key) (keys : List Key) → HasKey (mention k keys) k
unfolding mention
mention-HasKey k keys = elim (Bool-cases (any (key_eq k) keys)) [
  | inl e ↦ rw e (Any-any (key_eq k) keys e)
  | inr e ↦ rw e (Any-append-right (λ l. key_eq k l ≡ true) keys (k ∷ []) (inl (key_eq_refl k)))
]

pub mention_keeps : (k j : Key) (keys : List Key) → HasKey keys j → HasKey (mention k keys) j
unfolding mention
mention_keeps k j keys h = elim (Bool-cases (any (key_eq k) keys)) [
  | inl e ↦ rw e h
  | inr e ↦ rw e (Any-append-left (λ l. key_eq j l ≡ true) keys (k ∷ []) h)
]

pub All-mention :
    (P : Key → Type 0) (k : Key) (keys : List Key) → P k → All P keys → All P (mention k keys)
unfolding mention
All-mention P k keys p h = elim (Bool-cases (any (key_eq k) keys)) [
  | inl e ↦ rw e h
  | inr e ↦ rw e (All-append P keys (k ∷ []) h (p, tt))
]

pub insert_mentions_keeps :
    (P : EntityMention → Type 0) (c : ℕ) (keys : List Key) (ms : List EntityMention)
    → Any P ms
    → Any P (insert_mentions c keys ms)
unfolding insert_mentions
insert_mentions_keeps P c [] ms h = h
insert_mentions_keeps P c (k ∷ keys) ms h =
    let m : EntityMention = record { chunk_index = c; key = k } in
    elim (Bool-cases (any (mention_eq m) ms)) [
      | inl e ↦ rw e (insert_mentions_keeps P c keys ms h)
      | inr e ↦
          rw e (insert_mentions_keeps P c keys (ms ++ m ∷ []) (Any-append-left P ms (m ∷ []) h))
    ]

eq_of_key_eq : (k l : Key) → key_eq k l ≡ true → k ≡ l
unfolding key_eq
eq_of_key_eq k l h =
    let first : k.0 ≡ l.0 = (text_eq_iff k.0 l.0).0 (ground (arith, h)) in
    let second : k.1 ≡ l.1 = (text_eq_iff k.1 l.1).0 (ground (arith, h)) in
    ap (λ s. (s, k.1)) first ∙ ap (λ t. (l.0, t)) second

pub insert_mentions-IsMentioned :
    (c : ℕ) (k : Key) (keys : List Key) (ms : List EntityMention)
    → HasKey keys k
    → IsMentioned (insert_mentions c keys ms) c k
unfolding insert_mentions
insert_mentions-IsMentioned c k [] ms h = absurd h
insert_mentions-IsMentioned c k (l ∷ keys) ms (inr h) =
    let m : EntityMention = record { chunk_index = c; key = l } in
    insert_mentions-IsMentioned c k keys (if any (mention_eq m) ms then ms else ms ++ m ∷ []) h
insert_mentions-IsMentioned c k (l ∷ keys) ms (inl e) =
    let m : EntityMention = record { chunk_index = c; key = l } in
    let P : EntityMention → Type 0 = λ n. mention_eq m n ≡ true in
    let own : P m = unfold mention_eq in ground (arith, key_eq_refl l) in
    subst (λ t. IsMentioned (insert_mentions c (l ∷ keys) ms) c t) (sym (eq_of_key_eq k l e))
      (elim (Bool-cases (any (mention_eq m) ms)) [
        | inl a ↦ rw a (insert_mentions_keeps P c keys ms (Any-any (mention_eq m) ms a))
        | inr a ↦ rw a (
            insert_mentions_keeps P c keys (ms ++ m ∷ [])
              (Any-append-right P ms (m ∷ []) (inl own)))
      ])

pub All-insert_mentions :
    (P : Key → Type 0) (c : ℕ) (keys : List Key) (ms : List EntityMention)
    → All P keys
    → All (λ m. P m.key) ms
    → All (λ m. P m.key) (insert_mentions c keys ms)
unfolding insert_mentions
All-insert_mentions P c [] ms h k = k
All-insert_mentions P c (l ∷ keys) ms h k =
    let m : EntityMention = record { chunk_index = c; key = l } in
    elim (Bool-cases (any (mention_eq m) ms)) [
      | inl e ↦ rw e (All-insert_mentions P c keys ms h.1 k)
      | inr e ↦ rw e (
          All-insert_mentions P c keys (ms ++ m ∷ []) h.1
            (All-append (λ n. P n.key) ms (m ∷ []) k (h.0, tt)))
    ]
