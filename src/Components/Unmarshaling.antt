-- ===== src/Components/Unmarshaling.antt =====
-- components.go: the decoding of the fields of the components that have no `UnmarshalJSON` of their
-- own, and of the structs in them.
use discordgo.Base.{Option, some}
use discordgo.Components.Json.{
  Json, Keyed, as_text, as_int, as_uint, as_flag, as_pointer, as_slice, as_struct, ◌>>=◌,
}
use discordgo.Components.Types.{
  ComponentEmoji, Button, SelectMenuOption, SelectMenuDefaultValue, SelectMenu, TextInput,
  TextDisplay, UnfurledMediaItem, Thumbnail, MediaGalleryItem, MediaGallery, FileComponent,
  Separator, FileUpload,
}

abbrev pub read_emoji : Keyed → Option ComponentEmoji
read_emoji get = do
  name ← as_text (get "name")
  id ← as_text (get "id")
  animated ← as_flag (get "animated")
  some (record { name = name; id = id; animated = animated })

abbrev pub as_emoji : Option Json → Option (Option ComponentEmoji)
as_emoji = as_pointer (as_struct read_emoji)

abbrev pub read_button : Keyed → Option Button
read_button get = do
  label ← as_text (get "label")
  style ← as_uint (get "style")
  disabled ← as_flag (get "disabled")
  emoji ← as_emoji (get "emoji")
  url ← as_text (get "url")
  custom_id ← as_text (get "custom_id")
  sku_id ← as_text (get "sku_id")
  id ← as_int (get "id")
  some (record {
    label = label;
    style = style;
    disabled = disabled;
    emoji = emoji;
    url = url;
    custom_id = custom_id;
    sku_id = sku_id;
    id = id;
  })

abbrev pub read_option : Keyed → Option SelectMenuOption
read_option get = do
  label ← as_text (get "label")
  value ← as_text (get "value")
  description ← as_text (get "description")
  emoji ← as_emoji (get "emoji")
  default ← as_flag (get "default")
  some (record {
    label = label;
    value = value;
    description = description;
    emoji = emoji;
    default = default;
  })

abbrev pub read_default : Keyed → Option SelectMenuDefaultValue
read_default get = do
  id ← as_text (get "id")
  type ← as_text (get "type")
  some (record { id = id; type = type })

abbrev pub read_select_menu : Keyed → Option SelectMenu
read_select_menu get = do
  menu_type ← as_uint (get "type")
  custom_id ← as_text (get "custom_id")
  placeholder ← as_text (get "placeholder")
  min_values ← as_pointer as_int (get "min_values")
  max_values ← as_int (get "max_values")
  default_values ← as_slice (as_struct read_default) (get "default_values")
  options ← as_slice (as_struct read_option) (get "options")
  disabled ← as_flag (get "disabled")
  required ← as_pointer as_flag (get "required")
  channel_types ← as_slice as_int (get "channel_types")
  id ← as_int (get "id")
  values ← as_slice as_text (get "values")
  some (record {
    menu_type = menu_type;
    custom_id = custom_id;
    placeholder = placeholder;
    min_values = min_values;
    max_values = max_values;
    default_values = default_values;
    options = options;
    disabled = disabled;
    required = required;
    channel_types = channel_types;
    id = id;
    values = values;
  })

abbrev pub read_text_input : Keyed → Option TextInput
read_text_input get = do
  custom_id ← as_text (get "custom_id")
  label ← as_text (get "label")
  style ← as_uint (get "style")
  placeholder ← as_text (get "placeholder")
  value ← as_text (get "value")
  required ← as_pointer as_flag (get "required")
  min_length ← as_int (get "min_length")
  max_length ← as_int (get "max_length")
  id ← as_int (get "id")
  some (record {
    custom_id = custom_id;
    label = label;
    style = style;
    placeholder = placeholder;
    value = value;
    required = required;
    min_length = min_length;
    max_length = max_length;
    id = id;
  })

abbrev pub read_text_display : Keyed → Option TextDisplay
read_text_display get = do content ← as_text (get "content"); some (record { content = content })

abbrev pub read_media : Keyed → Option UnfurledMediaItem
read_media get = do url ← as_text (get "url"); some (record { url = url })

abbrev pub read_thumbnail : Keyed → Option Thumbnail
read_thumbnail get = do
  id ← as_int (get "id")
  media ← as_struct read_media (get "media")
  description ← as_pointer as_text (get "description")
  spoiler ← as_flag (get "spoiler")
  some (record { id = id; media = media; description = description; spoiler = spoiler })

abbrev pub read_item : Keyed → Option MediaGalleryItem
read_item get = do
  media ← as_struct read_media (get "media")
  description ← as_pointer as_text (get "description")
  spoiler ← as_flag (get "spoiler")
  some (record { media = media; description = description; spoiler = spoiler })

abbrev pub read_media_gallery : Keyed → Option MediaGallery
read_media_gallery get = do
  id ← as_int (get "id")
  items ← as_slice (as_struct read_item) (get "items")
  some (record { id = id; items = items })

abbrev pub read_file_component : Keyed → Option FileComponent
read_file_component get = do
  id ← as_int (get "id")
  file ← as_struct read_media (get "file")
  spoiler ← as_flag (get "spoiler")
  some (record { id = id; file = file; spoiler = spoiler })

abbrev pub read_separator : Keyed → Option Separator
read_separator get = do
  id ← as_int (get "id")
  divider ← as_pointer as_flag (get "divider")
  spacing ← as_pointer as_uint (get "spacing")
  some (record { id = id; divider = divider; spacing = spacing })

abbrev pub read_file_upload : Keyed → Option FileUpload
read_file_upload get = do
  id ← as_int (get "id")
  custom_id ← as_text (get "custom_id")
  min_values ← as_pointer as_int (get "min_values")
  max_values ← as_int (get "max_values")
  required ← as_pointer as_flag (get "required")
  values ← as_slice as_text (get "values")
  some (record {
    id = id;
    custom_id = custom_id;
    min_values = min_values;
    max_values = max_values;
    required = required;
    values = values;
  })
