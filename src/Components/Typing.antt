-- ===== src/Components/Typing.antt =====
-- components.go: a component is read by the type that is given.
use mathlib.Core.Option.{some-injective}
use discordgo.Base.{
  ℕ, String, true, Option, none, some, ◌≡◌, refl, sym, ap, ◌∙◌, eqb, arith, on_if, Option-cases,
  inl, inr,
}
use discordgo.Components.Json.{
  Json, null, object, array, boolean, number, text, Keyed, lookup_member, map_option, as_uint,
  as_int, as_text, as_flag, as_pointer, as_slice, as_struct, ◌>>=◌,
}
use discordgo.Components.Types.{
  SelectMenu, MessageComponent, button, select_menu, text_input, text_display, thumbnail,
  media_gallery, file_component, separator, file_upload,
}
use discordgo.Components.Marshaling.{component_type}
use discordgo.Components.Dispatching.{
  Inner, read_component, lookup_inner, is_select_menu, unmarshal, inner_of, read_typed,
  read_actions_row, read_section, read_container, read_label,
}
use discordgo.Components.Unmarshaling.{read_default, read_option, read_select_menu}

map_option-component_type :
    {A : Type 0} (f : A → MessageComponent) (n : ℕ) (o : Option A) (c : MessageComponent)
    → ((a : A) → component_type (f a) ≡ n)
    → map_option f o ≡ some c
    → component_type c ≡ n
map_option-component_type f n none c h e = absurd (ground arith)
map_option-component_type f n (some a) c h e = ap component_type (sym (some-injective _ _ e)) ∙ h a

-- A menu that is read has the type.
Typed : ℕ → Option SelectMenu → Type 0
Typed t o = (m : SelectMenu) → o ≡ some m → m.menu_type ≡ t

failed : (t : ℕ) → Typed t none
unfolding Typed
failed t m e = absurd (ground arith)

bind-Typed :
    {A : Type 0} (t : ℕ) (o : Option A) (f : A → Option SelectMenu)
    → ((a : A) → o ≡ some a → Typed t (f a))
    → Typed t (o >>= f)
bind-Typed t none f h = failed t
bind-Typed t (some a) f h = h a refl

read_select_menu-Typed :
    (get : Keyed) (t : ℕ) → as_uint (get "type") ≡ some t → Typed t (read_select_menu get)
unfolding Typed
read_select_menu-Typed get t e = bind-Typed t (as_uint (get "type")) _ (λ n f.
    (bind-Typed t (as_text (get "custom_id")) _ (λ x g.
      (bind-Typed t (as_text (get "placeholder")) _ (λ x g.
        (bind-Typed t (as_pointer as_int (get "min_values")) _ (λ x g.
          (bind-Typed t (as_int (get "max_values")) _ (λ x g.
            (bind-Typed t (as_slice (as_struct read_default) (get "default_values")) _ (λ x g.
              (bind-Typed t (as_slice (as_struct read_option) (get "options")) _ (λ x g.
                (bind-Typed t (as_flag (get "disabled")) _ (λ x g.
                  (bind-Typed t (as_pointer as_flag (get "required")) _ (λ x g.
                    (bind-Typed t (as_slice as_int (get "channel_types")) _ (λ x g.
                      (bind-Typed t (as_int (get "id")) _ (λ x g.
                        (bind-Typed t (as_slice as_text (get "values")) _ (λ x g. (λ m x.
                          ap (λ s. s.menu_type) (sym (some-injective _ _ x))
                          ∙ some-injective _ _ (sym f ∙ e)))))))))))))))))))))))))

read_actions_row-type :
    (get : Keyed) (sub : String → Option Inner) (c : MessageComponent)
    → read_actions_row get sub ≡ some c
    → component_type c ≡ 1
read_actions_row-type get sub c e = ground arith

read_section-type :
    (get : Keyed) (sub : String → Option Inner) (c : MessageComponent)
    → read_section get sub ≡ some c
    → component_type c ≡ 9
read_section-type get sub c e = ground arith

read_container-type :
    (get : Keyed) (sub : String → Option Inner) (c : MessageComponent)
    → read_container get sub ≡ some c
    → component_type c ≡ 17
read_container-type get sub c e = ground arith

read_label-type :
    (get : Keyed) (sub : String → Option Inner) (c : MessageComponent)
    → read_label get sub ≡ some c
    → component_type c ≡ 18
read_label-type get sub c e = ground arith

-- A component that is read has the type that is given.
HasType : ℕ → Option MessageComponent → Type 0
HasType t o = (c : MessageComponent) → o ≡ some c → component_type c ≡ t

menu-HasType :
    (get : Keyed) (t : ℕ)
    → as_uint (get "type") ≡ some t
    → is_select_menu t ≡ true
    → HasType t (map_option select_menu (read_select_menu get))
unfolding HasType Typed
menu-HasType get t e p c f = elim (Option-cases (read_select_menu get)) [
  | inl n ↦ absurd (ground (arith, ap (map_option select_menu) n))
  | inr (m, o) ↦
      let same = some-injective _ _ (sym (ap (map_option select_menu) o) ∙ f) in
      ap component_type (sym same) ∙ ground (arith, read_select_menu-Typed get t e m o)
]

read_typed-HasType :
    (get : Keyed) (sub : String → Option Inner) (t : ℕ)
    → as_uint (get "type") ≡ some t
    → HasType t (read_typed t get sub)
unfolding HasType
read_typed-HasType get sub t e =
    let step = λ (n : ℕ) (x y : Option MessageComponent) (h : HasType n x) (k : HasType t y).
      on_if (HasType t) (eqb t n) x y (λ p c f. h c f ∙ ground arith) (λ p. k) in
    step 1 _ _ (read_actions_row-type get sub) (
      step 2 _ _ (λ c. map_option-component_type button 2 _ c (λ a. refl))
        (on_if (HasType t) (is_select_menu t) _ _ (λ p. menu-HasType get t e p)
          (λ p.
            step 4 _ _ (λ c. map_option-component_type text_input 4 _ c (λ a. refl))
              (step 9 _ _ (read_section-type get sub) (
                step 10 _ _ (λ c. map_option-component_type text_display 10 _ c (λ a. refl))
                  (step 11 _ _ (λ c. map_option-component_type thumbnail 11 _ c (λ a. refl))
                    (step 12 _ _ (λ c. map_option-component_type media_gallery 12 _ c (λ a. refl))
                      (step 13 _ _
                        (λ c. map_option-component_type file_component 13 _ c (λ a. refl))
                        (step 14 _ _ (λ c. map_option-component_type separator 14 _ c (λ a. refl))
                          (step 17 _ _ (read_container-type get sub) (
                            step 18 _ _ (read_label-type get sub) (
                              step 19 _ _
                                (λ c. map_option-component_type file_upload 19 _ c (λ a. refl))
                                (λ c f. absurd (ground arith))))))))))))))

abbrev pub type_in : Json → Option ℕ
type_in (object ms) = as_uint (lookup_member "type" ms)
type_in _ = none

read_component-HasType :
    (get : Keyed) (sub : String → Option Inner) (c : MessageComponent)
    → read_component get sub ≡ some c
    → as_uint (get "type") ≡ some (component_type c)
unfolding HasType
read_component-HasType get sub c e = elim (Option-cases (as_uint (get "type"))) [
  | inl n ↦ absurd (ground arith)
  | inr (t, f) ↦
      f
      ∙ ap some (
          sym (
            read_typed-HasType get sub t f c
              (sym (ap (λ o. o >>= λ n. read_typed n get sub) f) ∙ e)))
]

-- Whatever is read, is an object whose type is the type of the component that is read: 1 for an
-- actions row, 2 for a button and so on, and for a select menu the one of its five types that is
-- given.
pub unmarshal-component_type :
    (v : Json) (c : MessageComponent) → unmarshal v ≡ some c → type_in v ≡ some (component_type c)
unfolding unmarshal
unmarshal-component_type (object ms) c e =
    read_component-HasType (λ k. lookup_member k ms) (λ k. lookup_inner k (inner_of ms)) c e
unmarshal-component_type null c e = absurd (ground arith)
unmarshal-component_type (boolean b) c e = absurd (ground arith)
unmarshal-component_type (number n) c e = absurd (ground arith)
unmarshal-component_type (text s) c e = absurd (ground arith)
unmarshal-component_type (array vs) c e = absurd (ground arith)
