-- ===== src/Components/Returning.antt =====
-- components.go: the components without others in them are read as they were written.
use discordgo.Base.{ℕ, Option, none, some, ◌≡◌, refl, ap, ◌∙◌}
use discordgo.Components.Json.{
  number, text, field_of, as_text, as_int, as_uint, as_pointer, as_struct, map_option, struct-write,
  text-omit, int-omit, flag-omit, slice-omit, slice-write, number-omit, boolean-omit,
  text-pointer-omit, or_nil, omit_pointer,
}
use discordgo.Components.Types.{
  ComponentEmoji, Button, SelectMenuOption, SelectMenuDefaultValue, SelectMenu, TextInput,
  Thumbnail, MediaGalleryItem, MediaGallery, FileComponent, Separator, FileUpload,
}
use discordgo.Components.Marshaling.{
  uint, button_style, menu_type, emoji_fields, write_emoji, button_fields, option_fields,
  write_option, write_default, select_menu_fields, text_input_fields, thumbnail_fields, write_item,
  item_fields, media_gallery_fields, file_component_fields, separator_fields, file_upload_fields,
}
use discordgo.Components.Unmarshaling.{
  read_emoji, as_emoji, read_button, read_option, read_default, read_select_menu, read_text_input,
  read_thumbnail, read_item, read_media_gallery, read_file_component, read_separator,
  read_file_upload,
}

emoji-write : (e : ComponentEmoji) → as_struct read_emoji (some (write_emoji e)) ≡ some e
emoji-write e =
    struct-write read_emoji (emoji_fields e) refl
    ∙ rw (text-omit e.name, text-omit e.id, flag-omit e.animated) refl

emoji-omit : (e : Option ComponentEmoji) → as_emoji (omit_pointer write_emoji e) ≡ some e
emoji-omit none = refl
emoji-omit (some e) = ap (map_option some) (emoji-write e)

pub read_button-fields :
    (b : Button)
    → read_button (λ k. field_of k (button_fields b)) ≡ some (record b { style = button_style b })
read_button-fields b =
    rw
      (
        emoji-omit b.emoji,
        text-omit b.url,
        text-omit b.custom_id,
        text-omit b.sku_id,
        int-omit b.id,
      )
      refl

option-write : (o : SelectMenuOption) → as_struct read_option (some (write_option o)) ≡ some o
option-write o =
    struct-write read_option (option_fields o) refl
    ∙ rw (text-omit o.label, emoji-omit o.emoji) refl

default-write :
    (d : SelectMenuDefaultValue) → as_struct read_default (some (write_default d)) ≡ some d
default-write d = refl

-- The slices of a menu that are empty are read as nil, and its type as it was sent.
abbrev pub normal_menu : SelectMenu → SelectMenu
normal_menu s = record s {
  menu_type = menu_type s;
  default_values = or_nil s.default_values;
  options = or_nil s.options;
  channel_types = or_nil s.channel_types;
  values = or_nil s.values;
}

pub read_select_menu-fields :
    (s : SelectMenu)
    → read_select_menu (λ k. field_of k (select_menu_fields s)) ≡ some (normal_menu s)
read_select_menu-fields s =
    rw
      (
        text-omit s.custom_id,
        number-omit s.min_values,
        int-omit s.max_values,
        slice-omit write_default (as_struct read_default) default-write s.default_values,
        slice-omit write_option (as_struct read_option) option-write s.options,
        boolean-omit s.required,
        slice-omit number as_int (λ n. refl) s.channel_types,
        int-omit s.id,
        slice-omit text as_text (λ t. refl) s.values,
      )
      refl

pub read_text_input-fields :
    (t : TextInput) → read_text_input (λ k. field_of k (text_input_fields t)) ≡ some t
read_text_input-fields t =
    rw
      (
        text-omit t.label,
        text-omit t.placeholder,
        text-omit t.value,
        boolean-omit t.required,
        int-omit t.min_length,
        int-omit t.max_length,
        int-omit t.id,
      )
      refl

pub read_thumbnail-fields :
    (t : Thumbnail) → read_thumbnail (λ k. field_of k (thumbnail_fields t)) ≡ some t
read_thumbnail-fields t =
    rw (int-omit t.id, text-pointer-omit t.description, flag-omit t.spoiler) refl

item-write : (i : MediaGalleryItem) → as_struct read_item (some (write_item i)) ≡ some i
item-write i =
    struct-write read_item (item_fields i) refl ∙ rw (text-pointer-omit i.description) refl

pub read_media_gallery-fields :
    (m : MediaGallery) → read_media_gallery (λ k. field_of k (media_gallery_fields m)) ≡ some m
read_media_gallery-fields m =
    rw (int-omit m.id, slice-write write_item (as_struct read_item) item-write m.items) refl

pub read_file_component-fields :
    (f : FileComponent) → read_file_component (λ k. field_of k (file_component_fields f)) ≡ some f
read_file_component-fields f = rw (int-omit f.id) refl

uint-omit : (n : Option ℕ) → as_pointer as_uint (omit_pointer uint n) ≡ some n
uint-omit none = refl
uint-omit (some n) = refl

pub read_separator-fields :
    (s : Separator) → read_separator (λ k. field_of k (separator_fields s)) ≡ some s
read_separator-fields s = rw (int-omit s.id, boolean-omit s.divider, uint-omit s.spacing) refl

pub read_file_upload-fields :
    (f : FileUpload)
    → read_file_upload (λ k. field_of k (file_upload_fields f))
      ≡ some (record f { values = or_nil f.values })
read_file_upload-fields f =
    rw
      (
        int-omit f.id,
        text-omit f.custom_id,
        number-omit f.min_values,
        int-omit f.max_values,
        boolean-omit f.required,
        slice-omit text as_text (λ t. refl) f.values,
      )
      refl
