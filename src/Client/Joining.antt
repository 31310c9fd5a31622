-- ===== src/Client/Joining.antt =====
-- The handlers of src/client.rs that join channels and list their members.
use titanirc.Base.{
  Bool, true, false, not, ◌&&◌, List, [], ◌∷◌, ◌++◌, map, if◌then◌else◌, insert, contains_key,
  HashMap, Text, text_eq, nat_eq, ◌==◌,
}
use titanirc.Irc.{IrcLibrary}
use titanirc.Connection.{DateTime}
use titanirc.Messages.{ClientAddr, ChannelAddr, MessageKind, ChannelJoin}
use titanirc.Channel.Responses.{
  MemberList, names_messages, ChannelJoinRejectionReason, rejection_messages,
}
use titanirc.Client.{Client, Sent, write}
use titanirc.Client.Handlers.{replayed}

-- `Handler<JoinChannelRequest>` up to the answers: the joins that are sent to the server.
unfoldable pub join_requests : IrcLibrary → ClientAddr → Client → List Text → List ChannelJoin
join_requests irc me c [] = []
join_requests irc me c (name ∷ names) =
    if irc.is_channel_name name && not (contains_key name c.channels)
    then record { channel_name = name; client = me; connection = c.connection }
      ∷ join_requests irc me c names
    else join_requests irc me c names

-- An answer to a join: the channel's handle, or the reason of a rejection.
pub data Joining : Type 0 where
  handle : ChannelAddr → Joining
  refused : ChannelJoinRejectionReason → Joining

module _ (irc : IrcLibrary) (show_rfc3339 : DateTime → Text) where
  -- The rest of it, with the unseen messages of each channel.
  unfoldable pub join_answers :
      Client
      → List (Text × Joining × List (DateTime × Text × Text × MessageKind))
      → Client × List Sent
  join_answers c [] = (c, [])
  join_answers c ((name, refused reason, messages) ∷ rest) =
      let (c', sent) = join_answers c rest in
      (c', map write (rejection_messages reason c.connection.nick) ++ sent)
  join_answers c ((name, handle a, messages) ∷ rest) =
      let (c', sent) = join_answers (record c { channels = insert name a c.channels }) rest in
      (c', map write (map (replayed irc show_rfc3339 c name) messages) ++ sent)

abbrev pub one_list : IrcLibrary → Client → MemberList → List Sent
one_list irc c l =
    map write (names_messages irc l c.connection.nick c.connection.capabilities.userhost_in_names)

abbrev pub names_contain : Text → List Text → Bool
names_contain name [] = false
names_contain name (n ∷ names) = if n == name then true else names_contain name names

-- The loop of `Handler<ListChannelMemberRequest>`; `ask` is the channels' answer.
abbrev pub listed :
    IrcLibrary
    → (ChannelAddr → MemberList)
    → Client
    → List Text
    → HashMap Text ChannelAddr
    → List Sent
listed irc ask c names [] = []
listed irc ask c names ((name, a) ∷ rest) =
    if names_contain name names
    then one_list irc c (ask a) ++ listed irc ask c names rest
    else listed irc ask c names rest

-- `Handler<ListChannelMemberRequest>`
unfoldable pub handle_list_members :
    IrcLibrary → (ChannelAddr → MemberList) → Client → List Text → List Sent
handle_list_members irc ask c names = listed irc ask c names c.channels
