-- ===== src/System/Renaming.antt =====
-- A change of nick in src/client.rs, with what the server and the channels make of it.
use titanirc.Base.{
  ◌≡◌, refl, ap, ◌∙◌, inr, some, Has, lookup, contains_key, values, lookup-insert_self, nat_eq,
  Text, true,
}
use titanirc.Irc.{IrcLibrary}
use titanirc.Connection.{DateTime, InitiatedConnection}
use titanirc.Messages.{ClientAddr, ChannelAddr, UserNickChange}
use titanirc.Channel.{Channel}
use titanirc.Channel.Handlers.{handle_nick_change}
use titanirc.Client
use titanirc.Client.{Client, ToServer, ToChannel}
use titanirc.Client.Handlers.{handle_own_nick_change}
use titanirc.Server.{Server}
use titanirc.Server.Handlers.{handle_user_nick_change}
use titanirc.System.{World, at_channel, deliver, deliver_all}
use titanirc.System.Spreading.{server-to_channels, to_channels_reach}

abbrev renamed : Client → Text → InitiatedConnection
renamed c new_nick = record c.connection { nick = new_nick }

module _ (irc : IrcLibrary) (show_time : DateTime → Text) (now : DateTime) where
  channel_renames :
      (me : ClientAddr) (c : Client) (new_nick : Text) (s : Server) (ch : Channel)
      → contains_key me ch.clients ≡ true
      → let ch' : Channel =
          (at_channel irc show_time now s ch (
            ToChannel.nick_change
              (record { client = me; connection = c.connection; new_nick = new_nick }))).channel in
        (contains_key me ch'.clients ≡ true) × (lookup me ch'.clients ≡ some (renamed c new_nick))
  unfolding handle_nick_change
  channel_renames me c new_nick s ch member =
      rw (member, lookup-insert_self me (renamed c new_nick) ch.clients) (refl, refl)

  server_renames :
      (s : Server) (m : UserNickChange) (old : InitiatedConnection)
      → lookup m.client s.clients ≡ some old
      → lookup m.client (handle_user_nick_change s m).0.clients
        ≡ some (record m.connection { nick = m.new_nick })
  unfolding handle_user_nick_change
  server_renames s m old e =
      rw (handle_user_nick_change, e)
        (lookup-insert_self m.client (record m.connection { nick = m.new_nick }) s.clients)

  -- After a change of nick that the database allows, the client, the server, and each channel that
  -- the client is in agree on its connection, with the new nick.
  pub nick_change_agrees :
      (me : ClientAddr) (c : Client) (new_nick : Text) (w : World) (old : InitiatedConnection)
      → lookup me w.server.clients ≡ some old
      → let (c', sent) = handle_own_nick_change me c new_nick true in
        let w' : World = deliver_all irc show_time now w sent in
        (c'.connection ≡ renamed c new_nick)
        × (lookup me w'.server.clients ≡ some (renamed c new_nick))
        × ((a : ChannelAddr) (ch : Channel)
            → Has a (values c.channels)
            → lookup a w.channels ≡ some ch
            → contains_key me ch.clients ≡ true
            → (ch' : Channel) × (lookup a w'.channels ≡ some ch')
              × (lookup me ch'.clients ≡ some (renamed c new_nick)))
  unfolding handle_own_nick_change deliver_all deliver
  nick_change_agrees me c new_nick w old known =
      let m : UserNickChange = record {
        client = me;
        connection = c.connection;
        new_nick = new_nick;
      } in
      let w1 : World = deliver irc show_time now w (Client.to_server (ToServer.nick_change m)) in
      (
        refl,
        ap (λ (s : Server). lookup me s.clients)
              (server-to_channels irc show_time now (values c.channels) (ToChannel.nick_change m)
                w1)
            ∙ server_renames w.server m old known,
        λ a ch listed there member.
            let (ch', e, g, p) =
              to_channels_reach irc show_time now (λ ch. contains_key me ch.clients ≡ true)
                (λ ch. lookup me ch.clients ≡ some (renamed c new_nick)) (ToChannel.nick_change m)
                (λ s ch. channel_renames me c new_nick s ch) (values c.channels) w1 a ch there
                member (inr listed) in
            (ch', e, p),
      )
