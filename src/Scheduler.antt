-- ===== src/Scheduler.antt =====
-- `dispatchMessage` of internal/scheduler/dispatch.go: which channels a message is sent to. The
-- senders are requests to services.
pub mod Backfill
pub mod Alerts
pub mod Insurance
pub mod Digest
pub mod Rules
use wealth.Prelude.{
  Bool, List, Option, Text, [], if◌then◌else◌, is_empty, lit, none, not, same, some, ◌&&◌, ◌||◌,
  ◌∷◌, text_eq,
}

-- The configuration is `none` where the JSON of the row cannot be read.
pub record Channel : Type 0 where
  pub name : Text
  pub type : Text
  pub enabled : Bool
  pub channel_for : Text
  pub digest_frequency : Text
  pub config : Option (List (Text × Text))

-- The senders that the loop starts.
pub data Sender : Type 0 where
  ntfy webhook email pushover : Sender

-- The guards of the loop. An empty frequency stands for none asked.
unfoldable pub is_addressed : Text → Text → Channel → Bool
is_addressed category freq ch =
    ch.enabled
    && (same ch.channel_for (lit "all") || same ch.channel_for category)
    && not (same category (lit "digest") && same ch.digest_frequency (lit "never"))
    && not (
        same category (lit "digest")
        && (not (is_empty freq) && not (same ch.digest_frequency freq)))

unfoldable pub sender_of : Text → Option Sender
sender_of type =
    if same type (lit "ntfy")
    then some ntfy
    else if same type (lit "webhook")
    then some webhook
    else if same type (lit "email")
    then some email
    else if same type (lit "pushover")
    then some pushover
    else none

-- What is started for a channel that passes the guards.
unfoldable pub start_sender : Channel → Option Sender
unfolding sender_of
start_sender ch = elim ch.config [ none ↦ none | some _ ↦ sender_of ch.type ]

-- The channels that are sent to, each with its sender, in the order of the loop.
unfoldable pub dispatch_message : Text → Text → List Channel → List (Channel × Sender)
unfolding is_addressed start_sender
dispatch_message category freq [] = []
dispatch_message category freq (ch ∷ channels) =
    let rest = dispatch_message category freq channels in
    if is_addressed category freq ch
    then elim (start_sender ch) [ none ↦ rest | some sender ↦ (ch, sender) ∷ rest ]
    else rest
