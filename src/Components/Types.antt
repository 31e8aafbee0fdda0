-- ===== src/Components/Types.antt =====
-- components.go: the message components. A slice may be nil, and so may an interface.
use discordgo.Base.{ℕ, String, Bool, Option, List}
use discordgo.Ratelimit.Buckets.{ℤ}

pub record ComponentEmoji : Type 0 where
  pub name : String
  pub id : String
  pub animated : Bool

pub record Button : Type 0 where
  pub label : String
  pub style : ℕ
  pub disabled : Bool
  pub emoji : Option ComponentEmoji
  pub url : String
  pub custom_id : String
  pub sku_id : String
  pub id : ℤ

pub record SelectMenuOption : Type 0 where
  pub label : String
  pub value : String
  pub description : String
  pub emoji : Option ComponentEmoji
  pub default : Bool

pub record SelectMenuDefaultValue : Type 0 where
  pub id : String
  pub type : String

pub record SelectMenu : Type 0 where
  pub menu_type : ℕ
  pub custom_id : String
  pub placeholder : String
  pub min_values : Option ℤ
  pub max_values : ℤ
  pub default_values : Option (List SelectMenuDefaultValue)
  pub options : Option (List SelectMenuOption)
  pub disabled : Bool
  pub required : Option Bool
  pub channel_types : Option (List ℤ)
  pub id : ℤ
  pub values : Option (List String)

pub record TextInput : Type 0 where
  pub custom_id : String
  pub label : String
  pub style : ℕ
  pub placeholder : String
  pub value : String
  pub required : Option Bool
  pub min_length : ℤ
  pub max_length : ℤ
  pub id : ℤ

pub record TextDisplay : Type 0 where
  pub content : String

pub record UnfurledMediaItem : Type 0 where
  pub url : String

pub record Thumbnail : Type 0 where
  pub id : ℤ
  pub media : UnfurledMediaItem
  pub description : Option String
  pub spoiler : Bool

pub record MediaGalleryItem : Type 0 where
  pub media : UnfurledMediaItem
  pub description : Option String
  pub spoiler : Bool

pub record MediaGallery : Type 0 where
  pub id : ℤ
  pub items : Option (List MediaGalleryItem)

pub record FileComponent : Type 0 where
  pub id : ℤ
  pub file : UnfurledMediaItem
  pub spoiler : Bool

pub record Separator : Type 0 where
  pub id : ℤ
  pub divider : Option Bool
  pub spacing : Option ℕ

pub record FileUpload : Type 0 where
  pub id : ℤ
  pub custom_id : String
  pub min_values : Option ℤ
  pub max_values : ℤ
  pub required : Option Bool
  pub values : Option (List String)

mutual
  pub data MessageComponent : Type 0 where
    nil_component : MessageComponent
    actions_row : (components : ComponentSlice) (id : ℤ) → MessageComponent
    button : Button → MessageComponent
    select_menu : SelectMenu → MessageComponent
    text_input : TextInput → MessageComponent
    section :
        (id : ℤ) (components : ComponentSlice) (accessory : MessageComponent) → MessageComponent
    text_display : TextDisplay → MessageComponent
    thumbnail : Thumbnail → MessageComponent
    media_gallery : MediaGallery → MessageComponent
    file_component : FileComponent → MessageComponent
    separator : Separator → MessageComponent
    container :
        (id : ℤ) (accent_color : Option ℤ) (spoiler : Bool) (components : ComponentSlice)
        → MessageComponent
    label :
        (id : ℤ) (label : String) (description : String) (component : MessageComponent)
        → MessageComponent
    file_upload : FileUpload → MessageComponent

  pub data ComponentSlice : Type 0 where
    nil_slice : ComponentSlice
    slice_of : ComponentList → ComponentSlice

  pub data ComponentList : Type 0 where
    no_components : ComponentList
    component : MessageComponent → ComponentList → ComponentList
