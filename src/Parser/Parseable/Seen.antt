-- ===== src/Parser/Parseable/Seen.antt =====
-- pkg/parser/parseable: which fields Parse finds set. A child that is redefined later is skipped, and
-- no field is missed by that.
use cirrus_cli.Prelude.{
  String, true, false, not, ◌&&◌, Option, none, some, List, [], ◌∷◌, str_eq, ◌≡◌, ◌⊎◌, ◌↔◌, inl,
  inr, refl, sym, ap, ◌∙◌, subst, arith, Bool-cases, Option-cases, eq_iff, All, All-map,
}
use cirrus_cli.Parser.Tree.{Node, Nodes, nil, cons, name_of, find_in}
use cirrus_cli.Parser.Parseable.{
  Field, field_failed, Step, go_on, stop, find_field_by_name, redefined, ordinary_fields, is_seen,
  required_fields, finish,
}

module _ (State Error : Type 0) where
  -- a child among the nodes whose name finds a field of that key
  abbrev pub Sets : List (Field State Error) → String → Nodes → Type 0
  Sets fields key nil = ⊥
  Sets fields key (cons child later) =
      ((f : Field State Error) × (find_field_by_name State Error (name_of child) fields ≡ some f)
        × (f.map_key ≡ key))
      ⊎ Sets fields key later

  redefined-Sets :
      (fields : List (Field State Error)) (key name : String) (later : Nodes)
      (f : Field State Error)
      → redefined name later ≡ true
      → find_field_by_name State Error name fields ≡ some f
      → f.map_key ≡ key
      → Sets fields key later
  unfolding find_in
  redefined-Sets fields key name nil f h e d = ground arith
  redefined-Sets fields key name (cons child later) f h e d =
      elim (Bool-cases (str_eq (name_of child) name)) [
        | inl q ↦ inl (
          f,
          subst (λ n. find_field_by_name State Error n fields ≡ some f)
              (sym ((eq_iff (name_of child) name).0 q)) e,
          d,
        )
        | inr q ↦ inr (redefined-Sets fields key name later f (ground (arith, h, q)) e d)
      ]

  -- what the loop over the ordinary fields ends with: the keys of the fields that some child sets, if
  -- it ends without an error
  abbrev Ends :
      List (Field State Error)
      → Nodes
      → List String
      → State × Step State Error (List String)
      → Type 0
  Ends fields children before (t, stop e) = Unit
  Ends fields children before (t, go_on after) =
      (key : String)
      → (is_seen key after ≡ true) ↔ ((is_seen key before ≡ true) ⊎ Sets fields key children)

  skipped :
      (fields : List (Field State Error)) (child : Node) (later : Nodes) (seen : List String)
      → (s : State) → find_field_by_name State Error (name_of child) fields ≡ none
      → ordinary_fields State Error fields (cons child later) seen s
        ≡ ordinary_fields State Error fields later seen s
  unfolding ordinary_fields
  skipped fields child later seen s e = ground (arith, e)

  skipped_for_later :
      (fields : List (Field State Error)) (child : Node) (later : Nodes) (seen : List String)
      → (s : State) (f : Field State Error)
      → find_field_by_name State Error (name_of child) fields ≡ some f
      → (not f.repeatable && redefined (name_of child) later) ≡ true
      → ordinary_fields State Error fields (cons child later) seen s
        ≡ ordinary_fields State Error fields later seen s
  unfolding ordinary_fields
  skipped_for_later fields child later seen s f e d = ground (arith, e, d)

  processed :
      (fields : List (Field State Error)) (child : Node) (later : Nodes) (seen : List String)
      → (s : State) (f : Field State Error)
      → find_field_by_name State Error (name_of child) fields ≡ some f
      → (not f.repeatable && redefined (name_of child) later) ≡ false
      → ordinary_fields State Error fields (cons child later) seen s
        ≡ (elim ((f.on_found child s).1) [
          | some e ↦ ((f.on_found child s).0, stop (field_failed e))
          | none ↦
              ordinary_fields State Error fields later (f.map_key ∷ seen) (f.on_found child s).0
        ])
  unfolding ordinary_fields
  processed fields child later seen s f e d = ground (arith, e, d)

  -- the same, where the first child sets nothing that a later one does not set
  skip-Ends :
      (fields : List (Field State Error)) (child : Node) (later : Nodes) (before : List String)
      → (r : State × Step State Error (List String))
      → ((key : String) → Sets fields key (cons child later) → Sets fields key later)
      → Ends fields later before r
      → Ends fields (cons child later) before r
  skip-Ends fields child later before (t, stop e) h g = tt
  skip-Ends fields child later before (t, go_on after) h g = λ key. (
    λ p. elim ((g key).0 p) [ inl q ↦ inl q | inr q ↦ inr (inr q) ],
    λ p. (g key).1 (elim p [ inl q ↦ inl q | inr q ↦ inr (h key q) ]),
  )

  set-Ends :
      (fields : List (Field State Error)) (child : Node) (later : Nodes) (before : List String)
      → (f : Field State Error) (r : State × Step State Error (List String))
      → find_field_by_name State Error (name_of child) fields ≡ some f
      → Ends fields later (f.map_key ∷ before) r
      → Ends fields (cons child later) before r
  unfolding is_seen
  set-Ends fields child later before f (t, stop e) d g = tt
  set-Ends fields child later before f (t, go_on after) d g = λ key. (
    λ p. elim ((g key).0 p) [
      | inl q ↦ elim (Bool-cases (str_eq f.map_key key)) [
        | inl e ↦ inr (inl (f, d, (eq_iff f.map_key key).0 e))
        | inr e ↦ inl (ground (arith, q, e))
      ]
      | inr q ↦ inr (inr q)
    ],
    λ p. (g key).1 (elim p [
      | inl q ↦ inl (ground (arith, q))
      | inr (inl (h, c, e)) ↦ inl (ground (arith, d, c, e, eq_iff f.map_key key))
      | inr (inr q) ↦ inr q
    ]),
  )

  answered-Ends :
      (fields : List (Field State Error)) (child : Node) (later : Nodes) (before : List String)
      → (f : Field State Error) (o : Option Error) (t : State)
      → (r : State × Step State Error (List String))
      → find_field_by_name State Error (name_of child) fields ≡ some f
      → Ends fields later (f.map_key ∷ before) r
      → Ends fields
          (cons child later)
          before
          (elim o [ some e ↦ (t, stop (field_failed e)) | none ↦ r ])
  answered-Ends fields child later before f (some e) t r d g = tt
  answered-Ends fields child later before f none t r d g =
      set-Ends fields child later before f r d g

  ordinary_fields-Ends :
      (fields : List (Field State Error)) (children : Nodes) (seen : List String) (s : State)
      → Ends fields children seen (ordinary_fields State Error fields children seen s)
  unfolding ordinary_fields
  ordinary_fields-Ends fields nil seen s =
      λ key. (λ p. inl p, λ p. elim p [ inl q ↦ q | inr b ↦ absurd b ])
  ordinary_fields-Ends fields (cons child later) seen s =
      elim (Option-cases (find_field_by_name State Error (name_of child) fields)) [
        | inl e ↦
            subst (Ends fields (cons child later) seen) (sym (skipped fields child later seen s e))
              (skip-Ends fields child later seen (ordinary_fields State Error fields later seen s)
                (λ key p. elim p [ inl (f, d, q) ↦ ground (arith, e, d) | inr q ↦ q ])
                (ordinary_fields-Ends fields later seen s))
        | inr (f, e) ↦ elim (Bool-cases (not f.repeatable && redefined (name_of child) later)) [
          | inl d ↦
              subst (Ends fields (cons child later) seen)
                (sym (skipped_for_later fields child later seen s f e d))
                (skip-Ends fields child later seen (ordinary_fields State Error fields later seen s)
                  (λ key p. elim p [
                    | inl (g, c, q) ↦
                        redefined-Sets fields key (name_of child) later g (ground (arith, d)) c q
                    | inr q ↦ q
                  ])
                  (ordinary_fields-Ends fields later seen s))
          | inr d ↦
              subst (Ends fields (cons child later) seen)
                (sym (processed fields child later seen s f e d))
                (answered-Ends fields child later seen f (f.on_found child s).1
                  (f.on_found child s).0 _ e
                  (ordinary_fields-Ends fields later (f.map_key ∷ seen) (f.on_found child s).0))
        ]
      ]

  required_fields_iff :
      (fields : List (Field State Error)) (seen : List String)
      → (required_fields State Error fields seen ≡ none)
        ↔ All (λ f. f.required ≡ true → is_seen f.map_key seen ≡ true) fields
  unfolding required_fields
  required_fields_iff [] seen = (λ h. tt, λ h. refl)
  required_fields_iff (f ∷ fs) seen =
      elim (Bool-cases (f.required && not (is_seen f.map_key seen))) [
        | inl e ↦ (λ h. ground (arith, h, e), λ (r, a). ground (arith, e, r))
        | inr e ↦
            let (to, from) = required_fields_iff fs seen in
            (
              λ h. (λ r. ground (arith, e, r), to (ground (arith, h, e))),
              λ (r, a). ground (arith, e, from a),
            )
      ]

  set_of :
      (fields : List (Field State Error)) (key : String) (children : Nodes) {P : Type 0}
      → (P → (is_seen key [] ≡ true) ⊎ Sets fields key children)
      → P
      → Sets fields key children
  unfolding is_seen
  set_of fields key children f p = elim (f p) [ inl q ↦ ground (arith, q) | inr q ↦ q ]

  -- Where the loop over the ordinary fields ends without an error, Parse ends without one if and only
  -- if for every required field some child has a name that finds a field of its key.
  pub finish-Sets :
      (fields : List (Field State Error)) (children : Nodes) (s t : State) (seen : List String)
      → ordinary_fields State Error fields children [] s ≡ (t, go_on seen)
      → ((finish State Error fields (ordinary_fields State Error fields children [] s)).1 ≡ none)
        ↔ All (λ f. f.required ≡ true → Sets fields f.map_key children) fields
  unfolding finish
  finish-Sets fields children s t seen e =
      let ends = subst (Ends fields children []) e (ordinary_fields-Ends fields children [] s) in
      let (to, from) = required_fields_iff fields seen in
      let same = ap (λ r. (finish State Error fields r).1) e in
      (
        λ h.
            All-map _ _ fields (λ f g r. set_of fields f.map_key children (ends f.map_key).0 (g r))
              (to (sym same ∙ h)),
        λ h. same ∙ from (All-map _ _ fields (λ f g r. (ends f.map_key).1 (inr (g r))) h),
      )
