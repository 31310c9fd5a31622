-- ===== src/Client/State.antt =====
-- What the messages of a client's stream change of its state in src/client.rs.
use titanirc.Base.{
  ◌≡◌, refl, ◌∙◌, ◌⊎◌, inl, inr, Option, none, some, Option-cases, Bool-cases, lookup,
  lookup-remove, Text, text_eq, ◌==◌,
}
use titanirc.Irc.{Message, Command}
use titanirc.Connection.{DateTime}
use titanirc.Messages.{ClientAddr}
use titanirc.Client.{Client}
use titanirc.Client.Stream.{Surroundings, part_from, handle_client_command, is_spoofed, handle_item}

-- The connection is the same, and no channel is new.
pub record IsNarrowed (c c' : Client) (name : Text) : Type 0 where
  pub connection : c'.connection ≡ c.connection
  pub channels :
      (lookup name c'.channels ≡ none) ⊎ (lookup name c'.channels ≡ lookup name c.channels)

same-IsNarrowed : (c : Client) (name : Text) → IsNarrowed c c name
same-IsNarrowed c name = record { connection = refl; channels = inr refl }

module _ (s : Surroundings) (me : ClientAddr) (now : DateTime) where
  part-IsNarrowed :
      (c : Client) (channel : Text) (message : Option Text) (name : Text)
      → IsNarrowed c (part_from s me now c channel message).0 name
  part-IsNarrowed c channel message name = elim (Option-cases (lookup channel c.channels)) [
    | inl e ↦ rw (part_from, e) (same-IsNarrowed c name)
    | inr (a, e) ↦
        rw (part_from, e)
          (record {
            connection = refl;
            channels = elim (Bool-cases (channel == name)) [
              | inl gone ↦ inl (lookup-remove channel name c.channels ∙ rw gone refl)
              | inr other ↦ inr (lookup-remove channel name c.channels ∙ rw other refl)
            ];
          })
  ]

  command-IsNarrowed :
      (c : Client) (command : Command) (name : Text)
      → IsNarrowed c (handle_client_command s me now c command).0 name
  unfolding handle_client_command
  command-IsNarrowed c (Command.quit message) name = record {
    connection = refl;
    channels = inr refl;
  }
  command-IsNarrowed c (Command.part channel message) name = part-IsNarrowed c channel message name
  command-IsNarrowed c (Command.pong _ _) name = record { connection = refl; channels = inr refl }
  command-IsNarrowed c command name = same-IsNarrowed c name

  -- A message from the client's stream changes nothing of its connection, its operator's flag
  -- included, and leaves each of its channels as it was or takes it away.
  pub handle_item-IsNarrowed :
      (c : Client) (item : Option Message) (name : Text)
      → IsNarrowed c (handle_item s me now c item).0 name
  unfolding handle_item
  handle_item-IsNarrowed c none name = same-IsNarrowed c name
  handle_item-IsNarrowed c (some m) name =
      elim (Bool-cases (is_spoofed s me now c (s.irc.source_nickname m))) [
        | inl spoofed ↦ rw spoofed (same-IsNarrowed c name)
        | inr own ↦ rw own (command-IsNarrowed c m.command name)
      ]
