-- ===== src/System/Departure.antt =====
-- The end of a client of src/client.rs, with what the server and the channels make of it.
use titanirc.Base.{
  ◌≡◌, ap, ◌∙◌, inl, inr, Option, none, some, [], ◌++◌, Has, lookup, values, lookup-remove_self,
  nat_eq, Text, text, unwrap_or, if◌then◌else◌, Option-cases,
}
use titanirc.Irc.{IrcLibrary}
use titanirc.Connection.{DateTime}
use titanirc.Messages.{ClientAddr, ChannelAddr}
use titanirc.Channel.{Channel}
use titanirc.Channel.Handlers.Membership.{handle_disconnect}
use titanirc.Client
use titanirc.Client.{Client, ToServer, ToChannel}
use titanirc.Client.Handlers.{to_channels, stopped}
use titanirc.Server.{Server}
use titanirc.Server.Handlers.{handle_server_disconnect}
use titanirc.System.{World, at_channel, deliver, deliver_all, settle}
use titanirc.System.Spreading.{deliver_all-append, server-to_channels, to_channels_reach}

-- What it tells the server.
abbrev first_sent : ClientAddr → Client → Client.Sent
first_sent me c = Client.to_server (
    ToServer.disconnect (record {
      client = me;
      message =
          (if c.graceful_shutdown
            then some (text "Quit: " ++ unwrap_or c.server_leave_reason [])
            else c.server_leave_reason);
    }))

module _ (irc : IrcLibrary) (show_time : DateTime → Text) (now : DateTime) where
  channel_forgets :
      (me : ClientAddr) (reason : Option Text) (s : Server) (ch : Channel)
      → Unit {0}
      → Unit {0}
        × (lookup me
              (at_channel irc show_time now s ch
                (ToChannel.disconnect (record { client = me; message = reason }))).channel.clients
            ≡ none)
  unfolding handle_disconnect
  channel_forgets me reason s ch _ = (
    tt,
    elim (Option-cases (lookup me ch.clients)) [
      | inl e ↦ rw (settle, handle_disconnect, e) e
      | inr (conn, e) ↦ rw (settle, handle_disconnect, e) (lookup-remove_self me ch.clients)
    ],
  )

  -- When a client has stopped, the server does not know it any more, and it is in none of the
  -- channels that it was connected to.
  pub stopped_forgotten :
      (me : ClientAddr) (c : Client) (w : World)
      → let w' : World = deliver_all irc show_time now w (stopped me c).1 in
        (lookup me w'.server.clients ≡ none)
        × ((a : ChannelAddr) (ch : Channel)
            → Has a (values c.channels)
            → lookup a w.channels ≡ some ch
            → (ch' : Channel) × (lookup a w'.channels ≡ some ch') × (lookup me ch'.clients ≡ none))
  unfolding stopped deliver_all deliver handle_server_disconnect
  stopped_forgotten me c w =
      let reason : Option Text = c.server_leave_reason in
      let m : ToChannel = ToChannel.disconnect (record { client = me; message = reason }) in
      let sent = (stopped me c).1 in
      let w1 : World = deliver irc show_time now w (first_sent me c) in
      let w2 : World = deliver_all irc show_time now w1 (to_channels (values c.channels) m) in
      let end : deliver_all irc show_time now w sent ≡ w2 =
        deliver_all-append irc show_time now w1 (to_channels (values c.channels) m) _ in
      rw end (
        ap (λ (s : Server). lookup me s.clients)
              (server-to_channels irc show_time now (values c.channels) m w1)
            ∙ lookup-remove_self me w.server.clients,
        λ a ch listed there.
            let (ch', e, g, p) =
              to_channels_reach irc show_time now (λ ch. Unit) (λ ch. lookup me ch.clients ≡ none) m
                (λ s ch g. channel_forgets me reason s ch g) (values c.channels) w1 a ch there tt
                (inr listed) in
            (ch', e, p),
      )
