-- ===== src/Packs/Validation/Yaml.antt =====
-- internal/packs/validation.go: `validateYAMLTree`. The tree is the YAML package's: a mapping has its
-- keys and values in turn. `tag` is the `ShortTag` of a node.
use cliharbor.Prelude.{
  ℕ, suc, Bool, true, false, not, ◌||◌, List, [], ◌∷◌, ◌++◌, ltb, if◌then◌else◌,
}
use cliharbor.Prelude.Result.{Result, ok, ◌>>=◌, ◌>>◌, fail_if}
use cliharbor.Prelude.Text.{Text, lit, text_eq, is_empty}
use cliharbor.Prelude.Sort.{mem_text}
use cliharbor.Go.{Go}
use cliharbor.Packs.Validation.{Checked, ValidationError, yaml_feature, duplicate_key, indexed}

abbrev pub max_yaml_depth : ℕ
max_yaml_depth = 64

abbrev pub max_yaml_nodes : ℕ
max_yaml_nodes = 10000

pub data Kind : Type 0 where
  document_node sequence_node mapping_node scalar_node alias_node : Kind

mutual
  pub data Node : Type 0 where
    node : Kind → Text → Text → Text → Nodes → Node

  pub data Nodes : Type 0 where
    nil : Nodes
    cons : Node → Nodes → Nodes

abbrev pub is_mapping : Kind → Bool
is_mapping mapping_node = true
is_mapping _ = false

abbrev pub is_sequence : Kind → Bool
is_sequence sequence_node = true
is_sequence _ = false

abbrev pub is_alias : Kind → Bool
is_alias alias_node = true
is_alias _ = false

abbrev is_scalar_node : Kind → Bool
is_scalar_node scalar_node = true
is_scalar_node _ = false

abbrev allowed_tags : List Text
allowed_tags =
    []
    ∷ lit "!!map"
    ∷ lit "!!seq"
    ∷ lit "!!str"
    ∷ lit "!!int"
    ∷ lit "!!float"
    ∷ lit "!!bool"
    ∷ lit "!!null"
    ∷ []

unfoldable pub allowed_yaml_tag : Text → Bool
allowed_yaml_tag tag = mem_text tag allowed_tags

abbrev pub feature_at : Text → ValidationError
feature_at path = record { code = yaml_feature; path = path }

unfoldable pub child_path : Text → Text → Text
child_path parent child = if is_empty parent then child else parent ++ (lit "." ++ child)

-- The tests that a node passes before its children are looked at.
unfoldable pub check_node : Kind → Text → Text → ℕ → ℕ → Text → Checked
check_node kind anchor tag depth count path = do
  fail_if (ltb max_yaml_nodes count) (feature_at path)
  fail_if (ltb max_yaml_depth depth) (feature_at path)
  fail_if (is_alias kind) (feature_at path)
  fail_if (not (is_empty anchor)) (feature_at path)
  fail_if (not (allowed_yaml_tag tag)) (feature_at path)

-- A key is a string, no merge key, and new.
unfoldable pub check_key : Node → List Text → Text → Result ValidationError Text
check_key (node kind anchor tag value content) seen path = do
  fail_if (not (is_scalar_node kind) || not (text_eq tag (lit "!!str"))) (feature_at path)
  fail_if (text_eq value (lit "<<")) (feature_at path)
  fail_if (mem_text value seen) (record { code = duplicate_key; path = child_path path value })
  ok value

-- `count` is the number of nodes so far, and the result the number after.
unfoldable mutual
  pub walk : Go → Node → ℕ → Text → ℕ → Result ValidationError ℕ
  walk go (node kind anchor tag value content) depth path count =
      check_node kind anchor tag depth (suc count) path >>= λ _. elim (is_mapping kind) [
        | true ↦ walk_pairs go content [] (suc depth) path (suc count)
        | false ↦ walk_items go content (is_sequence kind) 0 (suc depth) path (suc count)
      ]

  pub walk_pairs : Go → Nodes → List Text → ℕ → Text → ℕ → Result ValidationError ℕ
  walk_pairs go nil seen depth path count = ok count
  walk_pairs go (cons key nil) seen depth path count = ok count
  walk_pairs go (cons key (cons item rest)) seen depth path count =
      check_key key seen path >>= λ name. walk go item depth (child_path path name) count >>= λ n.
      walk_pairs go rest (name ∷ seen) depth path n

  pub walk_items : Go → Nodes → Bool → ℕ → ℕ → Text → ℕ → Result ValidationError ℕ
  walk_items go nil numbered index depth path count = ok count
  walk_items go (cons item rest) numbered index depth path count =
      walk go item depth (if numbered then indexed go path index else path) count >>= λ n.
      walk_items go rest numbered (suc index) depth path n

unfoldable pub validate_yaml_tree : Go → Node → Checked
validate_yaml_tree go root = walk go root 0 [] 0 >>= λ n. ok tt
