-- ===== src/Components/RoundTrip.antt =====
-- components.go: every component is read as it was written.
use discordgo.Base.{
  ℕ, String, true, Option, some, ◌≡◌, refl, ap, ◌∙◌, fun_ext, eqb, if◌then◌else◌, arith,
}
use discordgo.Components.Json.{
  Json, Members, no_members, member, Keyed, Fields, lookup_member, members, field_of,
  distinct_fields, lookup_member-members, map_option, write_struct, text-omit, int-omit,
  number-omit, or_nil,
}
use discordgo.Components.Types.{
  SelectMenu, MessageComponent, nil_component, actions_row, button, select_menu, text_input,
  section, text_display, thumbnail, media_gallery, file_component, separator, container, label,
  file_upload, ComponentSlice, nil_slice, slice_of, ComponentList, no_components, component,
}
use discordgo.Components.Marshaling.{
  menu_type, actions_row_fields, section_fields, text_display_fields, container_fields,
  label_fields, button_fields, select_menu_fields, text_input_fields, thumbnail_fields,
  media_gallery_fields, file_component_fields, separator_fields, file_upload_fields, marshal,
  marshal_slice, marshal_list,
}
use discordgo.Components.Dispatching.{
  Inner, read_component, lookup_inner, is_select_menu, unmarshal, unmarshal_slice, unmarshal_list,
  inner_of, read_typed,
}
use discordgo.Components.Unmarshaling.{read_select_menu}
use discordgo.Components.Returning.{
  normal_menu, read_button-fields, read_select_menu-fields, read_text_input-fields,
  read_thumbnail-fields, read_media_gallery-fields, read_file_component-fields,
  read_separator-fields, read_file_upload-fields,
}

-- Components that can be sent: none of those in them is nil, and a select menu has one of the types
-- of select menus.
unfoldable mutual
  pub Sendable : MessageComponent → Type 0
  Sendable nil_component = ⊥
  Sendable (actions_row cs id) = SendableSlice cs
  Sendable (select_menu s) = is_select_menu (menu_type s) ≡ true
  Sendable (section id cs a) = SendableSlice cs × Sendable a
  Sendable (container id a s cs) = SendableSlice cs
  Sendable (label id n d c) = Sendable c
  Sendable _ = Unit

  pub SendableSlice : ComponentSlice → Type 0
  SendableSlice nil_slice = Unit
  SendableSlice (slice_of cs) = SendableList cs

  pub SendableList : ComponentList → Type 0
  SendableList no_components = Unit
  SendableList (component c cs) = Sendable c × SendableList cs

-- What a component is once it has been sent: a button without a style is primary, a menu without
-- a type is one of texts, empty slices that are left out are nil, and a nil slice of components is
-- empty.
unfoldable mutual
  pub normal : MessageComponent → MessageComponent
  normal (actions_row cs id) = actions_row (slice_of (normal_slice cs)) id
  normal (button b) = button (record b { style = if eqb b.style 0 then 1 else b.style })
  normal (select_menu s) = select_menu (normal_menu s)
  normal (section id cs a) = section id (slice_of (normal_slice cs)) (normal a)
  normal (container id a s cs) = container id a s (slice_of (normal_slice cs))
  normal (label id n d c) = label id n d (normal c)
  normal (file_upload f) = file_upload (record f { values = or_nil f.values })
  normal c = c

  pub normal_slice : ComponentSlice → ComponentList
  normal_slice nil_slice = no_components
  normal_slice (slice_of cs) = normal_list cs

  pub normal_list : ComponentList → ComponentList
  normal_list no_components = no_components
  normal_list (component c cs) = component (normal c) (normal_list cs)

abbrev inner : Json → Inner
inner v = (unmarshal v, unmarshal_slice v)

lookup_inner-inner_of :
    (k : String) (ms : Members)
    → lookup_inner k (inner_of ms) ≡ map_option inner (lookup_member k ms)
unfolding inner_of
lookup_inner-inner_of k no_members = refl
lookup_inner-inner_of k (member j v ms) = ground (arith, lookup_inner-inner_of k ms)

unmarshal-write_struct :
    (fs : Fields)
    → distinct_fields fs ≡ true
    → unmarshal (write_struct fs)
      ≡ read_component (λ k. field_of k fs) (λ k. map_option inner (field_of k fs))
unfolding unmarshal
unmarshal-write_struct fs d =
    ap (λ get. read_component get (λ k. lookup_inner k (inner_of (members fs))))
      (fun_ext (λ k. lookup_member-members k fs d))
    ∙ ap (λ sub. read_component (λ k. field_of k fs) sub)
        (fun_ext (λ k.
          lookup_inner-inner_of k (members fs)
          ∙ ap (map_option inner) (lookup_member-members k fs d)))

read_typed-menu :
    (t : ℕ) (get : Keyed) (sub : String → Option Inner)
    → is_select_menu t ≡ true
    → read_typed t get sub ≡ map_option select_menu (read_select_menu get)
read_typed-menu t get sub e = ground arith

menu-typed :
    (m : SelectMenu)
    → is_select_menu (menu_type m) ≡ true
    → read_component
        (λ k. field_of k (select_menu_fields m))
        (λ k. map_option inner (field_of k (select_menu_fields m)))
      ≡ some (select_menu (normal_menu m))
menu-typed m s =
    read_typed-menu (menu_type m) (λ k. field_of k (select_menu_fields m))
      (λ k. map_option inner (field_of k (select_menu_fields m))) s
    ∙ ap (map_option select_menu) (read_select_menu-fields m)

mutual
  unfolding marshal unmarshal Sendable normal

  read_back : (c : MessageComponent) → Sendable c → unmarshal (marshal c) ≡ some (normal c)
  read_back nil_component s = absurd s
  read_back (actions_row cs id) s =
      unmarshal-write_struct (actions_row_fields (marshal_slice cs) id) refl
      ∙ rw (slice-marshal cs s, int-omit id) refl
  read_back (button b) s =
      unmarshal-write_struct (button_fields b) refl ∙ rw (read_button-fields b) refl
  read_back (select_menu m) s = unmarshal-write_struct (select_menu_fields m) refl ∙ menu-typed m s
  read_back (text_input t) s =
      unmarshal-write_struct (text_input_fields t) refl ∙ rw (read_text_input-fields t) refl
  read_back (section id cs a) s =
      unmarshal-write_struct (section_fields id (marshal_slice cs) (marshal a)) refl
      ∙ rw (int-omit id, slice-marshal cs s.0, read_back a s.1) refl
  read_back (text_display t) s = unmarshal-write_struct (text_display_fields t) refl
  read_back (thumbnail t) s =
      unmarshal-write_struct (thumbnail_fields t) refl ∙ rw (read_thumbnail-fields t) refl
  read_back (media_gallery m) s =
      unmarshal-write_struct (media_gallery_fields m) refl ∙ rw (read_media_gallery-fields m) refl
  read_back (file_component f) s =
      unmarshal-write_struct (file_component_fields f) refl ∙ rw (read_file_component-fields f) refl
  read_back (separator f) s =
      unmarshal-write_struct (separator_fields f) refl ∙ rw (read_separator-fields f) refl
  read_back (container id a sp cs) s =
      unmarshal-write_struct (container_fields id a sp (marshal_slice cs)) refl
      ∙ rw (int-omit id, number-omit a, slice-marshal cs s) refl
  read_back (label id n d c) s =
      unmarshal-write_struct (label_fields id n d (marshal c)) refl
      ∙ rw (int-omit id, text-omit d, read_back c s) refl
  read_back (file_upload f) s =
      unmarshal-write_struct (file_upload_fields f) refl ∙ rw (read_file_upload-fields f) refl

  slice-marshal :
      (cs : ComponentSlice)
      → SendableSlice cs
      → unmarshal_slice (marshal_slice cs) ≡ some (normal_slice cs)
  slice-marshal nil_slice s = refl
  slice-marshal (slice_of cs) s = list-marshal cs s

  list-marshal :
      (cs : ComponentList)
      → SendableList cs
      → unmarshal_list (marshal_list cs) ≡ some (normal_list cs)
  list-marshal no_components s = refl
  list-marshal (component c cs) s = rw (read_back c s.0, list-marshal cs s.1) refl

-- A component that has no nil component in it, and whose select menus have a type of select menus,
-- is read as it was written, up to what `normal` fills in.
pub unmarshal-marshal :
    (c : MessageComponent) → Sendable c → unmarshal (marshal c) ≡ some (normal c)
unmarshal-marshal c s = read_back c s
