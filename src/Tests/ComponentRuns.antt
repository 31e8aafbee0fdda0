-- ===== src/Tests/ComponentRuns.antt =====
-- Runs of the message components.
use discordgo.Base.{true, false, none, some, [], ◌∷◌, ◌≡◌, refl}
use discordgo.Ratelimit.Buckets.{pos}
use discordgo.Components.Json.{Json, number, text, object, no_members, member}
use discordgo.Components.Types.{
  Button, SelectMenu, MessageComponent, actions_row, button, select_menu, section, text_display,
  container, nil_slice, slice_of, no_components, component,
}
use discordgo.Components.Marshaling.{marshal}
use discordgo.Components.Dispatching.{unmarshal}
use discordgo.Components.RoundTrip.{Sendable, normal, unmarshal-marshal}
use discordgo.Components.Typing.{type_in, unmarshal-component_type}

abbrev press : Button
press = record {
  label = "press";
  style = 0;
  disabled = false;
  emoji = some (record { name = "wave"; id = ""; animated = true });
  url = "";
  custom_id = "b";
  sku_id = "";
  id = pos 0;
}

abbrev choose : SelectMenu
choose = record {
  menu_type = 8;
  custom_id = "m";
  placeholder = "";
  min_values = some (pos 0);
  max_values = pos 2;
  default_values = some [];
  options =
      some
        (record { label = "a"; value = "1"; description = ""; emoji = none; default = true } ∷ []);
  disabled = false;
  required = some false;
  channel_types = none;
  id = pos 7;
  values = none;
}

-- A container with a section, whose accessory is a button, and an actions row with a menu.
abbrev nested : MessageComponent
nested = container (pos 3) (some (pos 0)) true (
    slice_of (
      component
        (section (pos 0)
          (slice_of (component (text_display (record { content = "hi" })) no_components))
          (button press))
        (component (actions_row (slice_of (component (select_menu choose) no_components)) (pos 0))
          (component (actions_row nil_slice (pos 1)) no_components))))

unmarshal-marshal_example :
    unmarshal (marshal nested)
    ≡ some (
        container (pos 3) (some (pos 0)) true (
          slice_of (
            component
              (section
                (pos 0)
                (slice_of (component (text_display (record { content = "hi" })) no_components))
                (button (record press { style = 1 })))
              (component
                (actions_row
                  (slice_of (
                    component
                      (select_menu (record choose { default_values = none }))
                      no_components))
                  (pos 0))
                (component (actions_row (slice_of no_components) (pos 1)) no_components)))))
unfolding Sendable normal
unmarshal-marshal_example = unmarshal-marshal nested (((tt, tt), tt), ((refl, tt), (tt, tt)))

abbrev received : Json
received = object (
    member "type" (number (pos 10))
      (member "content" (text "hi") (member "flags" (number (pos 4)) no_members)))

unmarshal-component_type_example : type_in received ≡ some 10
unfolding unmarshal
unmarshal-component_type_example =
    unmarshal-component_type received (text_display (record { content = "hi" })) refl
