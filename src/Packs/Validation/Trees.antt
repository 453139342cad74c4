-- ===== src/Packs/Validation/Trees.antt =====
-- What `validateYAMLTree` guarantees of a tree.
use cliharbor.Prelude.{
  ℕ, suc, ◌+◌, ◌≤◌, ◌≡◌, refl, subst, Bool, true, false, not, ◌&&◌, List, [], ◌∷◌, leb,
  if◌then◌else◌, inl, inr, Bool-cases, arith,
}
use cliharbor.Prelude.Result.{ok, after_ok, ok_injective}
use cliharbor.Prelude.Text.{Text, is_empty}
use cliharbor.Go.{Go}
use cliharbor.Packs.Validation.{indexed}
use cliharbor.Packs.Validation.Yaml.{
  Node, Nodes, Kind, node, nil, cons, is_mapping, is_sequence, is_alias, max_yaml_depth,
  max_yaml_nodes, check_node, check_key, walk, walk_pairs, walk_items, child_path,
  validate_yaml_tree,
}

-- The values of a tree: all nodes but the keys.
unfoldable mutual
  pub size : Node → ℕ
  size (node kind anchor tag value content) =
      suc (elim (is_mapping kind) [ true ↦ size_pairs content | false ↦ size_items content ])

  pub size_pairs : Nodes → ℕ
  size_pairs nil = 0
  size_pairs (cons key nil) = 0
  size_pairs (cons key (cons item rest)) = size item + size_pairs rest

  pub size_items : Nodes → ℕ
  size_items nil = 0
  size_items (cons item rest) = size item + size_items rest

-- Each value at its depth, from a given one: no deeper than the limit, no alias and no anchor.
unfoldable mutual
  pub plain_from : ℕ → Node → Bool
  plain_from depth (node kind anchor tag value content) =
      leb depth max_yaml_depth
      && (not (is_alias kind)
          && (is_empty anchor && elim (is_mapping kind) [
            | true ↦ plain_pairs (suc depth) content
            | false ↦ plain_items (suc depth) content
          ]))

  pub plain_pairs : ℕ → Nodes → Bool
  plain_pairs depth nil = true
  plain_pairs depth (cons key nil) = true
  plain_pairs depth (cons key (cons item rest)) = plain_from depth item && plain_pairs depth rest

  pub plain_items : ℕ → Nodes → Bool
  plain_items depth nil = true
  plain_items depth (cons item rest) = plain_from depth item && plain_items depth rest

check_node-facts :
    (kind : Kind) (anchor tag : Text) (depth count : ℕ) (path : Text) {u : Unit {0}}
    → check_node kind anchor tag depth count path ≡ ok u
    → (count ≤ max_yaml_nodes)
      × ((leb depth max_yaml_depth && (not (is_alias kind) && is_empty anchor)) ≡ true)
unfolding check_node
check_node-facts kind anchor tag depth count path h = (ground (arith, h), ground (arith, h))

module _ (kind : Kind) (anchor tag value : Text) (content : Nodes) where
  mapping_size :
      (count : ℕ) {n : ℕ}
      → is_mapping kind ≡ true
      → n ≡ suc count + size_pairs content
      → n ≡ count + size (node kind anchor tag value content)
  unfolding size
  mapping_size count m e = ground (arith, m, e)

  other_size :
      (count : ℕ) {n : ℕ}
      → is_mapping kind ≡ false
      → n ≡ suc count + size_items content
      → n ≡ count + size (node kind anchor tag value content)
  unfolding size
  other_size count m e = ground (arith, m, e)

  mapping_plain :
      (depth : ℕ)
      → is_mapping kind ≡ true
      → (leb depth max_yaml_depth && (not (is_alias kind) && is_empty anchor)) ≡ true
      → plain_pairs (suc depth) content ≡ true
      → plain_from depth (node kind anchor tag value content) ≡ true
  unfolding plain_from
  mapping_plain depth m f p = ground (arith, m, f, p)

  other_plain :
      (depth : ℕ)
      → is_mapping kind ≡ false
      → (leb depth max_yaml_depth && (not (is_alias kind) && is_empty anchor)) ≡ true
      → plain_items (suc depth) content ≡ true
      → plain_from depth (node kind anchor tag value content) ≡ true
  unfolding plain_from
  other_plain depth m f p = ground (arith, m, f, p)

mutual
  unfolding walk size plain_from

  walk_facts :
      (go : Go) (t : Node) (depth : ℕ) (path : Text) (count : ℕ) {n : ℕ}
      → walk go t depth path count ≡ ok n
      → (n ≡ count + size t) × (plain_from depth t ≡ true) × (n ≤ max_yaml_nodes)
  walk_facts go (node kind anchor tag value content) depth path count {n} h =
      after_ok (check_node kind anchor tag depth (suc count) path) h (λ u checked rest.
        let facts : (suc count ≤ max_yaml_nodes)
            × ((leb depth max_yaml_depth && (not (is_alias kind) && is_empty anchor)) ≡ true) =
          check_node-facts kind anchor tag depth (suc count) path checked in
        elim (Bool-cases (is_mapping kind)) [
          | inl m ↦
              let inner : (n ≡ suc count + size_pairs content)
                  × (plain_pairs (suc depth) content ≡ true)
                  × (n ≤ max_yaml_nodes) =
                walk_pairs_facts go content [] (suc depth) path (suc count) facts.0 (
                  subst
                    (λ b.
                      elim b [
                        | true ↦ walk_pairs go content [] (suc depth) path (suc count)
                        | false ↦
                            walk_items go content (is_sequence kind) 0 (suc depth) path (suc count)
                      ]
                      ≡ ok n)
                    m rest) in
              (
                mapping_size kind anchor tag value content count m inner.0,
                mapping_plain kind anchor tag value content depth m facts.1 inner.1,
                inner.2,
              )
          | inr m ↦
              let inner : (n ≡ suc count + size_items content)
                  × (plain_items (suc depth) content ≡ true)
                  × (n ≤ max_yaml_nodes) =
                walk_items_facts go content (is_sequence kind) 0 (suc depth) path (suc count)
                  facts.0
                  (subst
                    (λ b.
                      elim b [
                        | true ↦ walk_pairs go content [] (suc depth) path (suc count)
                        | false ↦
                            walk_items go content (is_sequence kind) 0 (suc depth) path (suc count)
                      ]
                      ≡ ok n)
                    m rest) in
              (
                other_size kind anchor tag value content count m inner.0,
                other_plain kind anchor tag value content depth m facts.1 inner.1,
                inner.2,
              )
        ])

  walk_pairs_facts :
      (go : Go) (ts : Nodes) (seen : List Text) (depth : ℕ) (path : Text) (count : ℕ) {n : ℕ}
      → count ≤ max_yaml_nodes
      → walk_pairs go ts seen depth path count ≡ ok n
      → (n ≡ count + size_pairs ts) × (plain_pairs depth ts ≡ true) × (n ≤ max_yaml_nodes)
  walk_pairs_facts go nil seen depth path count {n} l h =
      (omega (arith, ok_injective h), refl, subst (λ m. m ≤ max_yaml_nodes) (ok_injective h) l)
  walk_pairs_facts go (cons key nil) seen depth path count {n} l h =
      (omega (arith, ok_injective h), refl, subst (λ m. m ≤ max_yaml_nodes) (ok_injective h) l)
  walk_pairs_facts go (cons key (cons item rest)) seen depth path count {n} l h =
      after_ok (check_key key seen path) h (λ name known h1.
        after_ok (walk go item depth (child_path path name) count) h1 (λ m one h2.
          let first : (m ≡ count + size item)
              × (plain_from depth item ≡ true)
              × (m ≤ max_yaml_nodes) =
            walk_facts go item depth (child_path path name) count one in
          let later : (n ≡ m + size_pairs rest)
              × (plain_pairs depth rest ≡ true)
              × (n ≤ max_yaml_nodes) =
            walk_pairs_facts go rest (name ∷ seen) depth path m first.2 h2 in
          (omega (arith, first.0, later.0), ground (arith, first.1, later.1), later.2)))

  walk_items_facts :
      (go : Go) (ts : Nodes) (numbered : Bool) (index depth : ℕ) (path : Text) (count : ℕ) {n : ℕ}
      → count ≤ max_yaml_nodes
      → walk_items go ts numbered index depth path count ≡ ok n
      → (n ≡ count + size_items ts) × (plain_items depth ts ≡ true) × (n ≤ max_yaml_nodes)
  walk_items_facts go nil numbered index depth path count {n} l h =
      (omega (arith, ok_injective h), refl, subst (λ m. m ≤ max_yaml_nodes) (ok_injective h) l)
  walk_items_facts go (cons item rest) numbered index depth path count {n} l h =
      let here : Text = if numbered then indexed go path index else path in
      after_ok (walk go item depth here count) h (λ m one h2.
        let first : (m ≡ count + size item)
            × (plain_from depth item ≡ true)
            × (m ≤ max_yaml_nodes) =
          walk_facts go item depth here count one in
        let later : (n ≡ m + size_items rest)
            × (plain_items depth rest ≡ true)
            × (n ≤ max_yaml_nodes) =
          walk_items_facts go rest numbered (suc index) depth path m first.2 h2 in
        (omega (arith, first.0, later.0), ground (arith, first.1, later.1), later.2))

-- A tree that `validateYAMLTree` accepts has at most 10000 values, none deeper than 64 levels, and no
-- value of it is an alias or has an anchor.
pub validate_yaml_tree_bounds :
    (go : Go) (root : Node) {u : Unit {0}}
    → validate_yaml_tree go root ≡ ok u
    → (size root ≤ max_yaml_nodes) × (plain_from 0 root ≡ true)
unfolding validate_yaml_tree
validate_yaml_tree_bounds go root h = after_ok (walk go root 0 [] 0) h (λ n walked rest.
    let facts : (n ≡ 0 + size root) × (plain_from 0 root ≡ true) × (n ≤ max_yaml_nodes) =
      walk_facts go root 0 [] 0 walked in
    (omega (arith, facts.0, facts.2), facts.1))
