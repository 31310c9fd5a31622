-- ===== src/Connection/Sasl.antt =====
-- The replies of src/connection/sasl.rs and the end of src/connection.rs.
use titanirc.Base.{
  Bool, Option, none, some, [], ◌∷◌, ◌++◌, if◌then◌else◌, Text, text, text_eq, ◌==◌,
}
use titanirc.Irc.{
  IrcLibrary, Message, bare, response, cap, ack, nak, err_saslalready, rpl_saslmechs,
  rpl_saslsuccess, rpl_loggedin, err_saslfail, err_saslabort, err_nicknameinuse,
}
use titanirc.Connection.{InitiatedConnection, to_nick}

pub data AuthStrategy : Type 0 where
  plain : AuthStrategy

-- `AuthStrategy::from_str`
unfoldable pub auth_strategy_from_str : Text → Option AuthStrategy
auth_strategy_from_str s = if s == text "PLAIN" then some plain else none

unfoldable pub sasl_already_authenticated : Text → Message
sasl_already_authenticated nick =
    bare (response err_saslalready (nick ∷ text "You have already authenticated using SASL" ∷ []))

unfoldable pub sasl_strategy_unsupported : Message
sasl_strategy_unsupported =
    bare (response rpl_saslmechs (text "PLAIN" ∷ text "are available SASL mechanisms" ∷ []))

unfoldable pub sasl_success : Message
sasl_success = bare (response rpl_saslsuccess (text "SASL authentication successful" ∷ []))

unfoldable pub connection_success : IrcLibrary → InitiatedConnection → Message
unfolding to_nick
connection_success irc c = bare (
    response rpl_loggedin (
      c.nick
      ∷ irc.show_prefix (to_nick c)
      ∷ c.user
      ∷ (text "You are now logged in as " ++ c.user)
      ∷ []))

unfoldable pub sasl_fail : Message
sasl_fail = bare (response err_saslfail (text "SASL authentication failed" ∷ []))

unfoldable pub sasl_aborted : Message
sasl_aborted = bare (response err_saslabort (text "SASL authentication aborted" ∷ []))

unfoldable pub nick_not_owned_by_user : Text → Message
nick_not_owned_by_user nick =
    bare (response err_nicknameinuse (nick ∷ text "Nickname is already in use" ∷ []))

-- `AcknowledgedCapabilities`
unfoldable pub acknowledged_capabilities : Text → Bool → Message
acknowledged_capabilities arguments acked =
    bare (cap (some (text "*")) (if acked then ack else nak) none (some arguments))
