-- ===== src/Parser/Tree/Yaml/RoundTrip.antt =====
-- A tree that is written to YAML is read back.
use cirrus_cli.Prelude.{
  subst, String, Bool, true, false, ◌≡◌, refl, ◌≢◌, some, List, ◌∷◌, str_eq, eq_iff, arith, sym, ap,
}
use cirrus_cli.Parser.Tree.{
  Value, map_value, list_value, no_value, scalar_value, Node, node, Nodes, nil, cons, name_of, snoc,
}
use cirrus_cli.Parser.Tree.Yaml.{
  Yaml, sequence, mapping, scalar, Yamls, end, item, tag_of, is_even, Converted, converted, fails,
  unbalanced_map, convert, convert_items, convert_pairs, new_string_node, marshal, marshal_pairs,
  marshal_items,
}

-- a tree as convert makes them: each node has a value, a scalar has no children, and the items of a list have
-- no names
unfoldable mutual
  pub IsPlain : Node → Type 0
  IsPlain (node n map_value ns) = ArePlain ns
  IsPlain (node n list_value ns) = AreItems ns
  IsPlain (node n (scalar_value s) ns) = ns ≡ nil
  IsPlain (node n no_value ns) = ⊥

  pub ArePlain : Nodes → Type 0
  ArePlain nil = Unit
  ArePlain (cons n ns) = IsPlain n × ArePlain ns

  pub AreItems : Nodes → Type 0
  AreItems nil = Unit
  AreItems (cons n ns) = (name_of n ≡ "") × IsPlain n × AreItems ns

abbrev append_nodes : Nodes → Nodes → Nodes
append_nodes nil ms = ms
append_nodes (cons n ns) ms = cons n (append_nodes ns ms)

append_nodes-snoc :
    (ns ms : Nodes) (m : Node) → append_nodes (snoc ns m) ms ≡ append_nodes ns (cons m ms)
unfolding snoc
append_nodes-snoc nil ms m = refl
append_nodes-snoc (cons n ns) ms m = ap (cons n) (append_nodes-snoc ns ms m)

append_nodes-nil : (ns : Nodes) → append_nodes ns nil ≡ ns
append_nodes-nil nil = refl
append_nodes-nil (cons n ns) = ap (cons n) (append_nodes-nil ns)

module _ (is_exempt : String → Bool) (string_tag : String → String)
    (is_str : (s : String) → string_tag s ≡ "!!str") where
  -- the node is written, not as null, and is read back, below any anchors
  abbrev pub ReadsBack : Node → Type 0
  ReadsBack n =
      (y : Yaml) × (marshal string_tag n ≡ some y)
      × (tag_of y ≢ "!!null")
      × ((above : List String) → convert is_exempt above (name_of n) y ≡ converted n)

  abbrev ItemsReadBack : Nodes → Type 0
  ItemsReadBack ns =
      (ys : Yamls) × (marshal_items string_tag ns ≡ some ys)
      × ((above : List String) → convert_items is_exempt above ys ≡ converted ns)

  abbrev PairsReadBack : Nodes → Type 0
  PairsReadBack ns =
      (ys : Yamls) × (marshal_pairs string_tag ns ≡ some ys)
      × (is_even ys ≡ true)
      × ((above : List String) (v : Value) (ms : Nodes)
          → convert_pairs is_exempt above v ms ys ≡ converted (v, append_nodes ms ns))

  not_null : (s : String) → str_eq s "!!null" ≡ false → s ≢ "!!null"
  not_null s h e = ground (arith, h, e, eq_iff s "!!null")

  differs : (y : Yaml) → tag_of y ≢ "!!null" → str_eq (tag_of y) "!!null" ≡ false
  differs y h = ground (arith, h, eq_iff (tag_of y) "!!null")

  map-ReadsBack : (n : String) (ns : Nodes) → PairsReadBack ns → ReadsBack (node n map_value ns)
  unfolding marshal convert
  map-ReadsBack n ns (ys, e, is_even_ys, reads) = (
    mapping "" "!!map" ys,
    rw (e) refl,
    not_null "!!map" refl,
    λ above.
        subst
          (λ b.
            ◌≡◌ {A = Converted Node}
              (elim b [
                | false ↦ fails unbalanced_map
                | true ↦ elim (convert_pairs is_exempt ("" ∷ above) map_value nil ys) [
                  | fails e ↦ fails e
                  | converted (v, ks) ↦ converted (node n v ks)
                ]
              ])
              (converted (node n map_value ns)))
          (sym is_even_ys) (rw (reads ("" ∷ above) map_value nil) refl),
  )

  list-ReadsBack : (n : String) (ns : Nodes) → ItemsReadBack ns → ReadsBack (node n list_value ns)
  unfolding marshal convert
  list-ReadsBack n ns (ys, e, reads) = (
    sequence "" "!!seq" ys,
    rw (e) refl,
    not_null "!!seq" refl,
    λ above. rw (reads ("" ∷ above)) refl,
  )

  scalar-ReadsBack : (n s : String) (ns : Nodes) → ns ≡ nil → ReadsBack (node n (scalar_value s) ns)
  unfolding marshal convert
  scalar-ReadsBack n s ns e = (
    scalar "" (string_tag s) s,
    refl,
    not_null (string_tag s) (rw (is_str s) refl),
    λ above. rw (e) refl,
  )

  item-ReadsBack :
      (n : Node) (ns : Nodes)
      → name_of n ≡ ""
      → ReadsBack n
      → ItemsReadBack ns
      → ItemsReadBack (cons n ns)
  unfolding marshal convert
  item-ReadsBack n ns is_unnamed (y, e, not_null_y, reads) (ys, es, reads') = (
    item y ys,
    rw (e, es) refl,
    λ above.
        subst
          (λ b.
            ◌≡◌ {A = Converted Nodes}
              (elim b [
                | true ↦ convert_items is_exempt above ys
                | false ↦ elim (convert is_exempt above "" y) [
                  | fails e ↦ fails e
                  | converted m ↦ elim (convert_items is_exempt above ys) [
                    | fails e ↦ fails e
                    | converted ms ↦ converted (cons m ms)
                  ]
                ]
              ])
              (converted (cons n ns)))
          (sym (differs y not_null_y)) (rw (unnamed_reads above, reads' above) refl),
  )
    where
      unnamed_reads : (above : List String) → convert is_exempt above "" y ≡ converted n
      unnamed_reads above =
          subst (λ m. convert is_exempt above m y ≡ converted n) is_unnamed (reads above)

  pair-ReadsBack :
      (n : Node) (ns : Nodes) → ReadsBack n → PairsReadBack ns → PairsReadBack (cons n ns)
  unfolding marshal convert
  pair-ReadsBack n ns (y, e, not_null_y, reads) (ys, es, is_even_ys, reads') = (
    item (new_string_node string_tag (name_of n)) (item y ys),
    rw (e, es) refl,
    is_even_ys,
    λ above v ms.
        rw (is_str (name_of n), reads above, reads' above v (snoc ms n), append_nodes-snoc ms ns n)
          refl,
  )

  no_pairs-PairsReadBack : PairsReadBack nil
  unfolding marshal convert
  no_pairs-PairsReadBack = (end, refl, refl, λ above v ms. rw (append_nodes-nil ms) refl)

  mutual
    unfolding IsPlain marshal convert

    reads_back : (n : Node) → IsPlain n → ReadsBack n
    reads_back (node n map_value ns) h = map-ReadsBack n ns (pairs_read_back ns h)
    reads_back (node n list_value ns) h = list-ReadsBack n ns (items_read_back ns h)
    reads_back (node n (scalar_value s) ns) h = scalar-ReadsBack n s ns h
    reads_back (node n no_value ns) h = absurd h

    items_read_back : (ns : Nodes) → AreItems ns → ItemsReadBack ns
    items_read_back nil h = (end, refl, λ above. refl)
    items_read_back (cons n ns) h =
        item-ReadsBack n ns h.0 (reads_back n h.1) (items_read_back ns h.2)

    pairs_read_back : (ns : Nodes) → ArePlain ns → PairsReadBack ns
    pairs_read_back nil h = no_pairs-PairsReadBack
    pairs_read_back (cons n ns) h = pair-ReadsBack n ns (reads_back n h.0) (pairs_read_back ns h.1)

  -- A tree whose nodes have values, whose scalars have no children and whose list items have no names, written
  -- to YAML, is read back as the same tree, wherever it stands, when SetString tags each string as a string.
  pub convert-marshal :
      (n : Node) (above : List String)
      → IsPlain n
      → (y : Yaml) × (marshal string_tag n ≡ some y)
        × (convert is_exempt above (name_of n) y ≡ converted n)
  convert-marshal n above h = let (y, e, not_null_y, reads) = reads_back n h in (y, e, reads above)
