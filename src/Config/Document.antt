-- ===== src/Config/Document.antt =====
-- YAML documents as the document interface of libyaml gives them, and the reading of their scalars.
use quic_sni_router.Base.{
  ℕ, ◌+◌, ◌<◌, ◌≡◌, Bool, false, ◌||◌, Option, none, some, List, [], ◌∷◌, arith, ok, err, invalid,
  ltb, ◌==◌, ltb→le, length, Result, reject_if, ◌>>=◌, ◌>>◌, Safe, Safe-bind, Safe-reject_if,
}

-- `yaml_node_t`, by its type: the bytes of a scalar, or the pairs of node numbers of a mapping.
pub data Node : Type 0 where
  scalar : List ℕ → Node
  sequence : Node
  mapping : List (ℕ × ℕ) → Node

-- `yaml_document_get_root_node` and `yaml_document_get_node`; `none` is NULL.
pub record Document : Type 0 where
  pub get_root_node : Option Node
  pub get_node : ℕ → Option Node

-- Whether a NUL is among the bytes.
abbrev pub has_nul : List ℕ → Bool
has_nul [] = false
has_nul (c ∷ rest) = c == 0 || has_nul rest

-- `copy_scalar`: the text that it leaves in a buffer of `out_max` bytes, without the closing NUL.
unfoldable pub copy_scalar : Option Node → ℕ → Result (List ℕ)
copy_scalar none out_max = err invalid
copy_scalar (some sequence) out_max = err invalid
copy_scalar (some (mapping pairs)) out_max = err invalid
copy_scalar (some (scalar text)) out_max = do
  reject_if (ltb out_max (length text + 1)) invalid
  reject_if (has_nul text) invalid
  ok text

-- The loop over the pairs of a mapping, with an early return. The body gets the two nodes.
abbrev pub for_pairs :
    {S : Type 0}
    → Document
    → (Option Node → Option Node → S → Result S)
    → List (ℕ × ℕ)
    → S
    → Result S
for_pairs doc body [] s = ok s
for_pairs doc body ((k, v) ∷ pairs) s =
    body (doc.get_node k) (doc.get_node v) s >>= λ next. for_pairs doc body pairs next

-- `node == nullptr || node->type != YAML_MAPPING_NODE`, and the loop behind it.
unfoldable pub in_mapping :
    {S : Type 0}
    → Document
    → (Option Node → Option Node → S → Result S)
    → Option Node
    → S
    → Result S
in_mapping doc body none s = err invalid
in_mapping doc body (some sequence) s = err invalid
in_mapping doc body (some (scalar text)) s = err invalid
in_mapping doc body (some (mapping pairs)) s = for_pairs doc body pairs s

-- A property that one pass of the loop keeps holds behind the loop.
pub for_pairs-Safe :
    {S : Type 0} (P : S → Type 0) (doc : Document) (body : Option Node → Option Node → S → Result S)
    → ((k v : Option Node) (s : S) → P s → Safe P (body k v s))
    → (pairs : List (ℕ × ℕ)) (s : S) → P s
    → Safe P (for_pairs doc body pairs s)
for_pairs-Safe P doc body step [] s h = h
for_pairs-Safe P doc body step ((k, v) ∷ pairs) s h =
    Safe-bind P P (body (doc.get_node k) (doc.get_node v) s) _
      (step (doc.get_node k) (doc.get_node v) s h)
      λ next good. for_pairs-Safe P doc body step pairs next good

pub in_mapping-Safe :
    {S : Type 0} (P : S → Type 0) (doc : Document) (body : Option Node → Option Node → S → Result S)
    → ((k v : Option Node) (s : S) → P s → Safe P (body k v s))
    → (node : Option Node) (s : S) → P s
    → Safe P (in_mapping doc body node s)
unfolding in_mapping
in_mapping-Safe P doc body step none s h = tt
in_mapping-Safe P doc body step (some sequence) s h = tt
in_mapping-Safe P doc body step (some (scalar text)) s h = tt
in_mapping-Safe P doc body step (some (mapping pairs)) s h =
    for_pairs-Safe P doc body step pairs s h

-- A text that a buffer of this size holds.
abbrev pub IsText : ℕ → List ℕ → Type 0
IsText out_max text = (length text < out_max) × (has_nul text ≡ false)

pub copy_scalar-Safe :
    (node : Option Node) (out_max : ℕ) → Safe (IsText out_max) (copy_scalar node out_max)
unfolding copy_scalar
copy_scalar-Safe none out_max = tt
copy_scalar-Safe (some sequence) out_max = tt
copy_scalar-Safe (some (mapping pairs)) out_max = tt
copy_scalar-Safe (some (scalar text)) out_max =
    Safe-reject_if _ (ltb out_max (length text + 1)) invalid _ λ fits.
      Safe-reject_if _ (has_nul text) invalid _
        λ clean. (omega (arith, ltb→le out_max (length text + 1) fits), clean)
