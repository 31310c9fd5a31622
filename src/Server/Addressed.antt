-- ===== src/Server/Addressed.antt =====
-- Who the answers of src/server/response.rs and src/channel/response.rs are addressed to.
use titanirc.Base.{
  ◌≡◌, refl, inl, inr, Option, none, some, Bool, true, false, Bool-cases, Option-cases, List, [],
  ◌∷◌, ◌++◌, map, All, All-append, All-map, Text, text, split, trim, join, nat_eq,
}
use mathlib.Core.List.{flat_map}
use titanirc.Irc.{Message, Command}
use titanirc.Connection.{DateTime, InitiatedConnection}
use titanirc.Channel.{CurrentChannelTopic}
use titanirc.Channel.Responses.{
  MemberList, who_line, who_messages, ChannelTopic, topic_messages, topic_lines, BanList, ban_line,
  ban_messages,
}
use titanirc.Server.Responses.{
  Printing, Whois, whois_messages, whois_lines, whois_mode, whois_away, mode_is_empty,
  channel_prefixed, WhoList, who_list_messages, motd_line, motd_messages, ChannelListItem,
  list_line, channel_list_messages,
}
use titanirc.Server.Protocol.{
  into_messages, unit_protocol, result_protocol, vec_protocol, option_protocol, motd_protocol,
  no_such_nick_protocol, channel_list_protocol, who_list_protocol, admin_info_protocol,
  list_users_protocol, ban_list_protocol,
}

-- The first argument of a numeric reply is the nick that it is for.
abbrev pub IsReplyTo : Text → Command → Type 0
IsReplyTo nick (Command.response r (target ∷ rest)) = target ≡ nick
IsReplyTo nick (Command.raw code (target ∷ rest)) = target ≡ nick
IsReplyTo nick _ = ⊥

abbrev pub IsFor : Text → Message → Type 0
IsFor nick m = IsReplyTo nick m.command

abbrev pub AreFor : Text → List Message → Type 0
AreFor nick ms = All (IsFor nick) ms

-- A line for each item, and one at the end.
pub lines-AreFor :
    {A : Type 0} (nick : Text) (f : A → Message) (xs : List A) (last : Message)
    → ((x : A) → IsFor nick (f x))
    → IsFor nick last
    → AreFor nick (map f xs ++ last ∷ [])
lines-AreFor nick f xs last h l =
    All-append (IsFor nick) (map f xs) (last ∷ []) (All-map (IsFor nick) f xs h) (l, tt)

pub motd-AreFor : (motd : Option Text) (nick : Text) → AreFor nick (motd_messages motd nick)
unfolding motd_messages
motd-AreFor none nick = (refl, tt)
motd-AreFor (some motd) nick =
    (refl, lines-AreFor nick (motd_line nick) (split 10 (trim motd)) _ (λ t. refl) refl)

pub channel_list-AreFor :
    (items : List ChannelListItem) (nick : Text) → AreFor nick (channel_list_messages items nick)
unfolding channel_list_messages
channel_list-AreFor items nick = (refl, lines-AreFor nick (list_line nick) items _ (λ t. refl) refl)

pub bans-AreFor : (l : BanList) (nick : Text) → AreFor nick (ban_messages l nick)
unfolding ban_messages
bans-AreFor l nick = lines-AreFor nick (ban_line l.channel nick) l.list _ (λ t. refl) refl

pub flat_map-AreFor :
    {A : Type 0} (nick : Text) (f : A → List Message) (xs : List A)
    → ((x : A) → AreFor nick (f x))
    → AreFor nick (flat_map f xs)
unfolding flat_map
flat_map-AreFor nick f [] h = tt
flat_map-AreFor nick f (x ∷ xs) h =
    All-append (IsFor nick) (f x) (flat_map f xs) (h x) (flat_map-AreFor nick f xs h)

pub who_list-AreFor : (w : WhoList) (nick : Text) → AreFor nick (who_list_messages w nick)
unfolding who_list_messages who_messages
who_list-AreFor w nick =
    All-append (IsFor nick) (flat_map (λ (v : MemberList). who_messages v nick) w.list) _
      (flat_map-AreFor nick (λ v. who_messages v nick) w.list
        (λ v. All-map (IsFor nick) (who_line v.channel_name nick) v.nick_list (λ e. refl)))
      (refl, tt)

pub mode-AreFor :
    (printing : Printing) (conn : InitiatedConnection) (nick : Text)
    → AreFor nick (whois_mode printing conn nick)
mode-AreFor printing conn nick = elim (Bool-cases (mode_is_empty conn.mode)) [
  | inl e ↦ rw e tt
  | inr e ↦ rw e (refl, tt)
]

pub away-AreFor :
    (printing : Printing) (away : Option Text) (who nick : Text)
    → AreFor nick (whois_away printing away who nick)
away-AreFor printing none who nick = tt
away-AreFor printing (some msg) who nick = (refl, tt)

pub whois_lines-AreFor :
    (printing : Printing) (conn : InitiatedConnection) (channels nick : Text)
    → AreFor nick (whois_lines printing conn channels nick)
whois_lines-AreFor printing conn channels nick =
    let rest =
      All-append (IsFor nick) (whois_mode printing conn nick) _ (mode-AreFor printing conn nick) (
        All-append (IsFor nick) (whois_away printing conn.away conn.nick nick) _
          (away-AreFor printing conn.away conn.nick nick) (refl, tt)) in
    (refl, (refl, (refl, (refl, (refl, (refl, (refl, rest)))))))

pub whois-AreFor :
    (printing : Printing) (w : Whois) (nick : Text) → AreFor nick (whois_messages printing w nick)
unfolding whois_messages
whois-AreFor printing w nick = elim (Option-cases w.conn) [
  | inl e ↦ rw (whois_messages, e) (refl, tt)
  | inr (c, e) ↦
      rw (whois_messages, e)
        (whois_lines-AreFor printing c (join (text " ") (map channel_prefixed w.channels)) nick)
]

pub topic_lines-AreFor :
    (show_time : DateTime → Text) (name : Text) (skip : Bool) (nick : Text)
    (topic : Option CurrentChannelTopic)
    → AreFor nick (topic_lines show_time name skip nick topic)
unfolding topic_lines
topic_lines-AreFor show_time name skip nick (some t) = (refl, (refl, tt))
topic_lines-AreFor show_time name true nick none = tt
topic_lines-AreFor show_time name false nick none = (refl, tt)

pub topic-AreFor :
    (show_time : DateTime → Text) (t : ChannelTopic) (nick : Text)
    → AreFor nick (topic_messages show_time t nick)
unfolding topic_messages
topic-AreFor show_time t nick =
    topic_lines-AreFor show_time t.channel_name t.skip_on_none nick t.topic

pub mode_list-AreFor : (l : Option BanList) (nick : Text) → AreFor nick (into_messages l nick)
mode_list-AreFor none nick = tt
mode_list-AreFor (some l) nick = bans-AreFor l nick
