-- ===== src/Components/Dispatching.antt =====
-- components.go: `UnmarshalJSON` of a component by its type, and of the components that hold
-- others.
--
-- The components in an object are read before the object is, which does not change the result: a
-- key that is not read is not looked up.
use discordgo.Base.{
  ℕ, String, Bool, Option, none, some, List, [], ◌∷◌, ◌==◌, eqb, leb, ◌&&◌, ◌||◌, if◌then◌else◌,
}
use discordgo.Components.Json.{
  Json, null, object, array, Values, no_values, value, Members, no_members, member, Keyed,
  lookup_member, as_text, as_int, as_uint, as_flag, as_pointer, map_option, ◌>>=◌,
}
use discordgo.Components.Types.{
  MessageComponent, nil_component, actions_row, button, select_menu, text_input, section,
  text_display, thumbnail, media_gallery, file_component, separator, container, label, file_upload,
  slice_of, ComponentList, no_components, component,
}
use discordgo.Components.Unmarshaling.{
  read_button, read_select_menu, read_text_input, read_text_display, read_thumbnail,
  read_media_gallery, read_file_component, read_separator, read_file_upload,
}

-- What a value is as a component, and as a slice of components.
abbrev pub Inner : Type 0
Inner = Option MessageComponent × Option ComponentList

abbrev pub component_at : Option Inner → Option MessageComponent
component_at none = some nil_component
component_at (some i) = i.0

abbrev pub components_at : Option Inner → Option ComponentList
components_at none = some no_components
components_at (some i) = i.1

abbrev pub read_actions_row : Keyed → (String → Option Inner) → Option MessageComponent
read_actions_row get inner = do
  components ← components_at (inner "components")
  id ← as_int (get "id")
  some (actions_row (slice_of components) id)

abbrev pub read_section : Keyed → (String → Option Inner) → Option MessageComponent
read_section get inner = do
  id ← as_int (get "id")
  components ← components_at (inner "components")
  accessory ← component_at (inner "accessory")
  some (section id (slice_of components) accessory)

abbrev pub read_container : Keyed → (String → Option Inner) → Option MessageComponent
read_container get inner = do
  id ← as_int (get "id")
  accent_color ← as_pointer as_int (get "accent_color")
  spoiler ← as_flag (get "spoiler")
  components ← components_at (inner "components")
  some (container id accent_color spoiler (slice_of components))

abbrev pub read_label : Keyed → (String → Option Inner) → Option MessageComponent
read_label get inner = do
  id ← as_int (get "id")
  name ← as_text (get "label")
  description ← as_text (get "description")
  c ← component_at (inner "component")
  some (label id name description c)

abbrev pub is_select_menu : ℕ → Bool
is_select_menu t = eqb t 3 || (leb 5 t && leb t 8)

-- The switch of `unmarshalableMessageComponent.UnmarshalJSON`.
abbrev pub read_typed : ℕ → Keyed → (String → Option Inner) → Option MessageComponent
read_typed t get inner =
    if eqb t 1
    then read_actions_row get inner
    else if eqb t 2
    then map_option button (read_button get)
    else if is_select_menu t
    then map_option select_menu (read_select_menu get)
    else if eqb t 4
    then map_option text_input (read_text_input get)
    else if eqb t 9
    then read_section get inner
    else if eqb t 10
    then map_option text_display (read_text_display get)
    else if eqb t 11
    then map_option thumbnail (read_thumbnail get)
    else if eqb t 12
    then map_option media_gallery (read_media_gallery get)
    else if eqb t 13
    then map_option file_component (read_file_component get)
    else if eqb t 14
    then map_option separator (read_separator get)
    else if eqb t 17
    then read_container get inner
    else if eqb t 18
    then read_label get inner
    else if eqb t 19
    then map_option file_upload (read_file_upload get)
    else none

abbrev pub read_component : Keyed → (String → Option Inner) → Option MessageComponent
read_component get inner = do type ← as_uint (get "type"); read_typed type get inner

abbrev pub lookup_inner : String → List (String × Inner) → Option Inner
lookup_inner k [] = none
lookup_inner k ((j, i) ∷ is) = elim (lookup_inner k is) [
  | some i' ↦ some i'
  | none ↦ if j == k then some i else none
]

abbrev pub cons_component : Option MessageComponent → Option ComponentList → Option ComponentList
cons_component (some c) (some cs) = some (component c cs)
cons_component _ _ = none

unfoldable mutual
  -- `MessageComponentFromJSON`
  pub unmarshal : Json → Option MessageComponent
  unmarshal (object ms) =
      let inner = inner_of ms in
      read_component (λ k. lookup_member k ms) (λ k. lookup_inner k inner)
  unmarshal null = read_component (λ k. none) (λ k. none)
  unmarshal _ = none

  -- `[]unmarshalableMessageComponent`
  pub unmarshal_slice : Json → Option ComponentList
  unmarshal_slice (array vs) = unmarshal_list vs
  unmarshal_slice null = some no_components
  unmarshal_slice _ = none

  pub unmarshal_list : Values → Option ComponentList
  unmarshal_list no_values = some no_components
  unmarshal_list (value v vs) = cons_component (unmarshal v) (unmarshal_list vs)

  pub inner_of : Members → List (String × Inner)
  inner_of no_members = []
  inner_of (member k v ms) = (k, (unmarshal v, unmarshal_slice v)) ∷ inner_of ms
