-- ===== src/Examples/Scheduler.antt =====
-- internal/scheduler/dispatch.go
use wealth.Prelude.{All, Text, [], lit, refl, same, some, true, ◌∷◌, ◌≡◌, text_eq}
use wealth.Scheduler.{Channel, dispatch_message, ntfy}
use wealth.Scheduler.Digest.{IsReached, IsServed, dispatch_message_exact}

abbrev channel : Text → Text → Text → Channel
channel name type frequency = record {
  name = name;
  type = type;
  enabled = true;
  channel_for = lit "all";
  digest_frequency = frequency;
  config = some [];
}

abbrev phone : Channel
phone = channel (lit "phone") (lit "ntfy") (lit "weekly")

abbrev inbox : Channel
inbox = channel (lit "inbox") (lit "email") (lit "monthly")

weekly : dispatch_message (lit "digest") (lit "weekly") (phone ∷ inbox ∷ []) ≡ (phone, ntfy) ∷ []
unfolding dispatch_message same
weekly = refl

dispatch_message_exact_example :
    let sent = dispatch_message (lit "digest") (lit "weekly") (phone ∷ inbox ∷ []) in
    All (IsReached (lit "digest") (lit "weekly") (phone ∷ inbox ∷ [])) sent
    × All (IsServed (lit "digest") (lit "weekly") sent) (phone ∷ inbox ∷ [])
dispatch_message_exact_example =
    dispatch_message_exact (lit "digest") (lit "weekly") (phone ∷ inbox ∷ [])
