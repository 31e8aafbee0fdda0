-- ===== src/Components/Marshaling.antt =====
-- components.go: the `Type` and `MarshalJSON` of each component.
use discordgo.Base.{ℕ, String, Bool, Option, some, [], ◌∷◌, eqb, if◌then◌else◌}
use discordgo.Ratelimit.Buckets.{ℤ, pos}
use discordgo.Components.Json.{
  Json, null, boolean, number, text, array, Values, no_values, value, Fields, omit_text, omit_int,
  omit_flag, omit_pointer, write_slice, omit_slice, write_struct,
}
use discordgo.Components.Types.{
  ComponentEmoji, Button, SelectMenuOption, SelectMenuDefaultValue, SelectMenu, TextInput,
  TextDisplay, UnfurledMediaItem, Thumbnail, MediaGalleryItem, MediaGallery, FileComponent,
  Separator, FileUpload, MessageComponent, nil_component, actions_row, button, select_menu,
  text_input, section, text_display, thumbnail, media_gallery, file_component, separator, container,
  label, file_upload, ComponentSlice, nil_slice, slice_of, ComponentList, no_components, component,
}

abbrev pub uint : ℕ → Json
uint n = number (pos n)

abbrev pub button_style : Button → ℕ
button_style b = if eqb b.style 0 then 1 else b.style

abbrev pub menu_type : SelectMenu → ℕ
menu_type s = if eqb s.menu_type 0 then 3 else s.menu_type

abbrev pub emoji_fields : ComponentEmoji → Fields
emoji_fields e =
    ("name", omit_text e.name) ∷ ("id", omit_text e.id) ∷ ("animated", omit_flag e.animated) ∷ []

abbrev pub write_emoji : ComponentEmoji → Json
write_emoji e = write_struct (emoji_fields e)

abbrev pub typed : ℕ → Fields
typed n = ("type", some (uint n)) ∷ []

abbrev pub button_fields : Button → Fields
button_fields b =
    ("label", some (text b.label))
    ∷ ("style", some (uint (button_style b)))
    ∷ ("disabled", some (boolean b.disabled))
    ∷ ("emoji", omit_pointer write_emoji b.emoji)
    ∷ ("url", omit_text b.url)
    ∷ ("custom_id", omit_text b.custom_id)
    ∷ ("sku_id", omit_text b.sku_id)
    ∷ ("id", omit_int b.id)
    ∷ typed 2

abbrev pub option_fields : SelectMenuOption → Fields
option_fields o =
    ("label", omit_text o.label)
    ∷ ("value", some (text o.value))
    ∷ ("description", some (text o.description))
    ∷ ("emoji", omit_pointer write_emoji o.emoji)
    ∷ ("default", some (boolean o.default))
    ∷ []

abbrev pub write_option : SelectMenuOption → Json
write_option o = write_struct (option_fields o)

abbrev pub write_default : SelectMenuDefaultValue → Json
write_default d = write_struct (("id", some (text d.id)) ∷ ("type", some (text d.type)) ∷ [])

abbrev pub select_menu_fields : SelectMenu → Fields
select_menu_fields s =
    ("custom_id", omit_text s.custom_id)
    ∷ ("placeholder", some (text s.placeholder))
    ∷ ("min_values", omit_pointer number s.min_values)
    ∷ ("max_values", omit_int s.max_values)
    ∷ ("default_values", omit_slice write_default s.default_values)
    ∷ ("options", omit_slice write_option s.options)
    ∷ ("disabled", some (boolean s.disabled))
    ∷ ("required", omit_pointer boolean s.required)
    ∷ ("channel_types", omit_slice number s.channel_types)
    ∷ ("id", omit_int s.id)
    ∷ ("values", omit_slice text s.values)
    ∷ typed (menu_type s)

abbrev pub text_input_fields : TextInput → Fields
text_input_fields t =
    ("custom_id", some (text t.custom_id))
    ∷ ("label", omit_text t.label)
    ∷ ("style", some (uint t.style))
    ∷ ("placeholder", omit_text t.placeholder)
    ∷ ("value", omit_text t.value)
    ∷ ("required", omit_pointer boolean t.required)
    ∷ ("min_length", omit_int t.min_length)
    ∷ ("max_length", omit_int t.max_length)
    ∷ ("id", omit_int t.id)
    ∷ typed 4

abbrev pub write_media : UnfurledMediaItem → Json
write_media m = write_struct (("url", some (text m.url)) ∷ [])

abbrev pub thumbnail_fields : Thumbnail → Fields
thumbnail_fields t =
    ("id", omit_int t.id)
    ∷ ("media", some (write_media t.media))
    ∷ ("description", omit_pointer text t.description)
    ∷ ("spoiler", omit_flag t.spoiler)
    ∷ typed 11

abbrev pub item_fields : MediaGalleryItem → Fields
item_fields i =
    ("media", some (write_media i.media))
    ∷ ("description", omit_pointer text i.description)
    ∷ ("spoiler", some (boolean i.spoiler))
    ∷ []

abbrev pub write_item : MediaGalleryItem → Json
write_item i = write_struct (item_fields i)

abbrev pub media_gallery_fields : MediaGallery → Fields
media_gallery_fields m =
    ("id", omit_int m.id) ∷ ("items", some (write_slice write_item m.items)) ∷ typed 12

abbrev pub file_component_fields : FileComponent → Fields
file_component_fields f =
    ("id", omit_int f.id)
    ∷ ("file", some (write_media f.file))
    ∷ ("spoiler", some (boolean f.spoiler))
    ∷ typed 13

abbrev pub separator_fields : Separator → Fields
separator_fields s =
    ("id", omit_int s.id)
    ∷ ("divider", omit_pointer boolean s.divider)
    ∷ ("spacing", omit_pointer uint s.spacing)
    ∷ typed 14

abbrev pub file_upload_fields : FileUpload → Fields
file_upload_fields f =
    ("id", omit_int f.id)
    ∷ ("custom_id", omit_text f.custom_id)
    ∷ ("min_values", omit_pointer number f.min_values)
    ∷ ("max_values", omit_int f.max_values)
    ∷ ("required", omit_pointer boolean f.required)
    ∷ ("values", omit_slice text f.values)
    ∷ typed 19

-- The fields of the components with others in them, which are written already.
abbrev pub actions_row_fields : (components : Json) → ℤ → Fields
actions_row_fields cs id = ("components", some cs) ∷ ("id", omit_int id) ∷ typed 1

abbrev pub section_fields : ℤ → (components accessory : Json) → Fields
section_fields id cs a =
    ("id", omit_int id) ∷ ("components", some cs) ∷ ("accessory", some a) ∷ typed 9

abbrev pub text_display_fields : TextDisplay → Fields
text_display_fields t = ("content", some (text t.content)) ∷ typed 10

abbrev pub container_fields : ℤ → Option ℤ → Bool → (components : Json) → Fields
container_fields id accent_color spoiler cs =
    ("id", omit_int id)
    ∷ ("accent_color", omit_pointer number accent_color)
    ∷ ("spoiler", some (boolean spoiler))
    ∷ ("components", some cs)
    ∷ typed 17

abbrev pub label_fields : ℤ → (label description : String) → (component : Json) → Fields
label_fields id name description c =
    ("id", omit_int id)
    ∷ ("label", some (text name))
    ∷ ("description", omit_text description)
    ∷ ("component", some c)
    ∷ typed 18

-- `MarshalJSON`; a nil interface becomes null.
unfoldable mutual
  pub marshal : MessageComponent → Json
  marshal nil_component = null
  marshal (actions_row cs id) = write_struct (actions_row_fields (marshal_slice cs) id)
  marshal (button b) = write_struct (button_fields b)
  marshal (select_menu s) = write_struct (select_menu_fields s)
  marshal (text_input t) = write_struct (text_input_fields t)
  marshal (section id cs a) = write_struct (section_fields id (marshal_slice cs) (marshal a))
  marshal (text_display t) = write_struct (text_display_fields t)
  marshal (thumbnail t) = write_struct (thumbnail_fields t)
  marshal (media_gallery m) = write_struct (media_gallery_fields m)
  marshal (file_component f) = write_struct (file_component_fields f)
  marshal (separator s) = write_struct (separator_fields s)
  marshal (container id accent_color spoiler cs) =
      write_struct (container_fields id accent_color spoiler (marshal_slice cs))
  marshal (label id name description c) =
      write_struct (label_fields id name description (marshal c))
  marshal (file_upload f) = write_struct (file_upload_fields f)

  pub marshal_slice : ComponentSlice → Json
  marshal_slice nil_slice = null
  marshal_slice (slice_of cs) = array (marshal_list cs)

  pub marshal_list : ComponentList → Values
  marshal_list no_components = no_values
  marshal_list (component c cs) = value (marshal c) (marshal_list cs)

-- `Type`; a nil interface has none.
abbrev pub component_type : MessageComponent → ℕ
component_type nil_component = 0
component_type (actions_row cs id) = 1
component_type (button b) = 2
component_type (select_menu s) = menu_type s
component_type (text_input t) = 4
component_type (section id cs a) = 9
component_type (text_display t) = 10
component_type (thumbnail t) = 11
component_type (media_gallery m) = 12
component_type (file_component f) = 13
component_type (separator s) = 14
component_type (container id a s cs) = 17
component_type (label id n d c) = 18
component_type (file_upload f) = 19
