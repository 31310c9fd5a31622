-- ===== src/System/Spreading.antt =====
-- What a message that a client of src/client.rs sends to several channels leaves in each of them.
use titanirc.Base.{
  ◌≡◌, ◌≢◌, refl, sym, ◌∙◌, ◌⊎◌, inl, inr, some, List, [], ◌∷◌, ◌++◌, Has, lookup,
  lookup-insert_self, lookup-insert_ne, nat_eq, nat_beq_iff, Bool-cases, Option-cases, ◌==◌, Text,
}
use titanirc.Irc.{IrcLibrary}
use titanirc.Connection.{DateTime}
use titanirc.Messages.{ChannelAddr}
use titanirc.Channel.{Channel}
use titanirc.Client
use titanirc.Client.{ToChannel}
use titanirc.Client.Handlers.{to_channels}
use titanirc.Server.{Server}
use titanirc.System.{World, at_channel, deliver, deliver_all}

module _ (irc : IrcLibrary) (show_time : DateTime → Text) (now : DateTime) where
  pub deliver_all-append :
      (w : World) (xs ys : List Client.Sent)
      → deliver_all irc show_time now w (xs ++ ys)
        ≡ deliver_all irc show_time now (deliver_all irc show_time now w xs) ys
  unfolding deliver_all
  deliver_all-append w [] ys = refl
  deliver_all-append w (x ∷ xs) ys = deliver_all-append (deliver irc show_time now w x) xs ys

  -- A message to a channel leaves the server alone.
  server_stays :
      (w : World) (a : ChannelAddr) (m : ToChannel)
      → (deliver irc show_time now w (Client.to_channel a m)).server ≡ w.server
  unfolding deliver
  server_stays w a m = elim (Option-cases (lookup a w.channels)) [
    | inl e ↦ rw (deliver, e) refl
    | inr (c, e) ↦ rw (deliver, e) refl
  ]

  pub server-to_channels :
      (addrs : List ChannelAddr) (m : ToChannel) (w : World)
      → (deliver_all irc show_time now w (to_channels addrs m)).server ≡ w.server
  unfolding deliver_all
  server-to_channels [] m w = refl
  server-to_channels (a ∷ addrs) m w =
      server-to_channels addrs m (deliver irc show_time now w (Client.to_channel a m))
      ∙ server_stays w a m

  -- Where a channel that `G` holds of handles the message, `P` holds afterwards, and `G` still.
  module _ (G P : Channel → Type 0) (m : ToChannel)
      (handles : (s : Server) (c : Channel)
        → G c
        → G (at_channel irc show_time now s c m).channel
          × P (at_channel irc show_time now s c m).channel) where
    abbrev pub Reaches : World → ChannelAddr → Type 0
    Reaches w a = (c : Channel) × (lookup a w.channels ≡ some c) × G c × P c

    deliver_here :
        (w : World) (a : ChannelAddr) (c : Channel)
        → lookup a w.channels ≡ some c
        → G c
        → Reaches (deliver irc show_time now w (Client.to_channel a m)) a
    unfolding deliver
    deliver_here w a c e g =
        let (g', p') = handles w.server c g in
        let c' = (at_channel irc show_time now w.server c m).channel in
        (c', rw (deliver, e) (lookup-insert_self a c' w.channels), g', p')

    deliver_elsewhere :
        (w : World) (a b : ChannelAddr)
        → b ≢ a
        → lookup a (deliver irc show_time now w (Client.to_channel b m)).channels
          ≡ lookup a w.channels
    unfolding deliver
    deliver_elsewhere w a b n = elim (Option-cases (lookup b w.channels)) [
      | inl e ↦ rw (deliver, e) refl
      | inr (c, e) ↦
          rw (deliver, e)
            (lookup-insert_ne b a (at_channel irc show_time now w.server c m).channel w.channels n)
    ]

    pub to_channels_reach :
        (addrs : List ChannelAddr) (w : World) (a : ChannelAddr) (c : Channel)
        → lookup a w.channels ≡ some c
        → G c
        → P c ⊎ Has a addrs
        → Reaches (deliver_all irc show_time now w (to_channels addrs m)) a
    unfolding deliver_all
    to_channels_reach [] w a c e g (inl p) = (c, e, g, p)
    to_channels_reach [] w a c e g (inr h) = elim h [ ]
    to_channels_reach (b ∷ addrs) w a c e g h = elim (Bool-cases (b == a)) [
      | inl y ↦
          let (c', e', g', p') = deliver_here w a c e g in
          rw ((nat_beq_iff b a).0 y) (
            to_channels_reach addrs (deliver irc show_time now w (Client.to_channel a m)) a c' e' g'
              (inl p'))
      | inr n ↦
          let differ : b ≢ a = λ q. cc (n, (nat_beq_iff b a).1 q) in
          to_channels_reach addrs (deliver irc show_time now w (Client.to_channel b m)) a c
            (deliver_elsewhere w a b differ ∙ e) g
            (elim h [ inl p ↦ inl p | inr (inl q) ↦ absurd (differ (sym q)) | inr (inr k) ↦ inr k ])
    ]
