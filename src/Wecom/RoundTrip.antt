-- ===== src/Wecom/RoundTrip.antt =====
-- What the state text of a contact way says about its binding.
use Prim.Native.Char.{Char, code}
use Prim.Native.String.{String, [], ◌++◌}
use Prim.Native.String.append
use text.Mathlib.TextLemmas.{append_assoc}
use jianghu_scrm.Prelude.{
  Bool, true, false, not, List, ◌≡◌, refl, ap, ◌∙◌, ◌==◌, ◌&&◌, eqb, arith, trim_space, inl, inr,
  Bool-cases,
}
use jianghu_scrm.Wecom.State.{
  colon, space, replace_all, sanitize_part, build_state_prefix, build_contact_way_state, add_front,
  split_colon, after_bind, parse_binding_id,
}

unfoldable no_colon : String → Bool
no_colon [] = true
no_colon (String.◌∷◌ x s) = not (eqb (code x) colon) && no_colon s

split_colon-colon : (r : String) → split_colon (":" ++ r) ≡ List.◌∷◌ "" (split_colon r)
unfolding split_colon
split_colon-colon r =
    ap split_colon (append.cons _ [] r) ∙ ap (λ t. List.◌∷◌ "" (split_colon t)) (append.nil r)

no_colon-underscore : (t : String) → no_colon ("_" ++ t) ≡ no_colon t
unfolding no_colon
no_colon-underscore t = ap no_colon (append.cons _ [] t) ∙ ap no_colon (append.nil t)

-- A split takes a text without a colon off the front.
split_colon-part :
    (w r : String) → no_colon w ≡ true → split_colon (w ++ (":" ++ r)) ≡ List.◌∷◌ w (split_colon r)
unfolding split_colon no_colon add_front
split_colon-part [] r h = ap split_colon (append.nil (":" ++ r)) ∙ split_colon-colon r
split_colon-part (String.◌∷◌ x w) r h =
    ap split_colon (append.cons x w (":" ++ r)) ∙ elim (Bool-cases (eqb (code x) colon)) [
      | inl e ↦ ground (arith, h, e)
      | inr e ↦ rw e (ap (add_front x) (split_colon-part w r (rw e at h)))
    ]

replace_all-no_colon : (s : String) → no_colon (replace_all colon s) ≡ true
unfolding no_colon replace_all
replace_all-no_colon [] = refl
replace_all-no_colon (String.◌∷◌ x s) = elim (Bool-cases (eqb (code x) colon)) [
  | inl e ↦ rw e (no_colon-underscore (replace_all colon s) ∙ replace_all-no_colon s)
  | inr e ↦ rw (e, e) (replace_all-no_colon s)
]

rest_no_colon : (x : Char) (s : String) → no_colon (String.◌∷◌ x s) ≡ true → no_colon s ≡ true
unfolding no_colon
rest_no_colon x s h = ground (arith, h)

spaced-no_colon : (s : String) → no_colon s ≡ true → no_colon (replace_all space s) ≡ true
unfolding no_colon replace_all
spaced-no_colon [] h = refl
spaced-no_colon (String.◌∷◌ x s) h = elim (Bool-cases (eqb (code x) space)) [
  | inl e ↦
      rw e (no_colon-underscore (replace_all space s) ∙ spaced-no_colon s (rest_no_colon x s h))
  | inr e ↦ rw e (ground (arith, h, spaced-no_colon s))
]

sanitize_part-no_colon : (s : String) → no_colon (sanitize_part s) ≡ true
unfolding sanitize_part
sanitize_part-no_colon s =
    spaced-no_colon (replace_all colon (trim_space s)) (replace_all-no_colon (trim_space s))

-- a separator that is a word between colons
split_colon-between :
    (w word r : String)
    → no_colon w ≡ true
    → no_colon word ≡ true
    → split_colon (w ++ ((":" ++ (word ++ ":")) ++ r)) ≡ List.◌∷◌ w (List.◌∷◌ word (split_colon r))
split_colon-between w word r h k =
    ap (λ t. split_colon (w ++ t)) (append_assoc ":" (word ++ ":") r)
    ∙ split_colon-part w ((word ++ ":") ++ r) h
    ∙ ap (λ t. List.◌∷◌ w (split_colon t)) (append_assoc word ":" r)
    ∙ ap (List.◌∷◌ w) (split_colon-part word r k)

module _ (store_code manager guide binding : String) where
  abbrev tail : String
  tail = sanitize_part guide ++ (":bind:" ++ (sanitize_part binding ++ ":v1"))

  unnested :
      build_contact_way_state store_code manager guide binding
      ≡ "store:"
        ++ (sanitize_part store_code
            ++ (":manager:" ++ (sanitize_part manager ++ (":guide:" ++ tail))))
  unfolding build_contact_way_state build_state_prefix
  unnested =
      append_assoc "store:" (sanitize_part store_code ++ (":manager:" ++ sanitize_part manager))
        (":guide:" ++ tail)
      ∙ ap (λ t. "store:" ++ t)
          (append_assoc (sanitize_part store_code) (":manager:" ++ sanitize_part manager)
              (":guide:" ++ tail)
            ∙ ap (λ t. sanitize_part store_code ++ t)
                (append_assoc ":manager:" (sanitize_part manager) (":guide:" ++ tail)))

  abbrev parts : List String
  parts = List.◌∷◌ "store" (
      List.◌∷◌ (sanitize_part store_code) (
        List.◌∷◌ "manager" (
          List.◌∷◌ (sanitize_part manager) (
            List.◌∷◌ "guide" (
              List.◌∷◌ (sanitize_part guide)
                (List.◌∷◌ "bind" (List.◌∷◌ (sanitize_part binding) (List.◌∷◌ "v1" List.[]))))))))

  split_colon-tail :
      split_colon tail
      ≡ List.◌∷◌
          (sanitize_part guide)
          (List.◌∷◌ "bind" (List.◌∷◌ (sanitize_part binding) (List.◌∷◌ "v1" List.[])))
  unfolding split_colon add_front no_colon
  split_colon-tail =
      split_colon-between (sanitize_part guide) "bind" (sanitize_part binding ++ ":v1")
        (sanitize_part-no_colon guide) refl
      ∙ ap (λ ws. List.◌∷◌ (sanitize_part guide) (List.◌∷◌ "bind" ws))
          (split_colon-part (sanitize_part binding) "v1" (sanitize_part-no_colon binding))

  split_colon-state : split_colon (build_contact_way_state store_code manager guide binding) ≡ parts
  unfolding no_colon
  split_colon-state =
      ap split_colon unnested
      ∙ ap split_colon (
          append_assoc "store" ":" (
            sanitize_part store_code
            ++ (":manager:" ++ (sanitize_part manager ++ (":guide:" ++ tail)))))
      ∙ split_colon-part "store"
          (sanitize_part store_code
            ++ (":manager:" ++ (sanitize_part manager ++ (":guide:" ++ tail))))
          refl
      ∙ ap (List.◌∷◌ "store") (
          split_colon-between (sanitize_part store_code) "manager"
            (sanitize_part manager ++ (":guide:" ++ tail)) (sanitize_part-no_colon store_code) refl
          ∙ ap (λ ws. List.◌∷◌ (sanitize_part store_code) (List.◌∷◌ "manager" ws))
              (split_colon-between (sanitize_part manager) "guide" tail
                  (sanitize_part-no_colon manager) refl
                ∙ ap (λ ws. List.◌∷◌ (sanitize_part manager) (List.◌∷◌ "guide" ws))
                    split_colon-tail))

  -- Where none of the store code, the manager and the guide is written as "bind", the state text of a
  -- contact way is parsed back to its binding, sanitised and trimmed.
  pub parse_binding_id-build :
      (sanitize_part store_code == "bind") ≡ false
      → (sanitize_part manager == "bind") ≡ false
      → (sanitize_part guide == "bind") ≡ false
      → parse_binding_id (build_contact_way_state store_code manager guide binding)
        ≡ trim_space (sanitize_part binding)
  unfolding parse_binding_id after_bind
  parse_binding_id-build a b c = ap after_bind split_colon-state ∙ rw (a, b, c) refl

  -- Where the store code is written as "bind", the state text is parsed to "manager", whatever its
  -- binding is.
  pub parse_binding_id-shadowed :
      sanitize_part store_code ≡ "bind"
      → parse_binding_id (build_contact_way_state store_code manager guide binding) ≡ "manager"
  unfolding parse_binding_id after_bind trim_space
  parse_binding_id-shadowed e = ap after_bind split_colon-state ∙ rw e refl
