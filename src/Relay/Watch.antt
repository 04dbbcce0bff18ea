-- ===== src/Relay/Watch.antt =====
-- `scan` of cmd/epistemic-relay/main.go: one walk over the watched files. A file is its path with what
-- reading it gives; the walk is a list, without the entries that it skips.
use epistemic_engine.Prelude.{
  ℕ, String, Option, none, some, List, [], ◌∷◌, ◌==◌, length, if◌then◌else◌,
}
use epistemic_engine.Go.Map.{Map, lookup, insert, or_zero}
use epistemic_engine.Go.Numbers.{RawMessage, Time, pos}
use epistemic_engine.Go.Text.{concat, take_text}
use epistemic_engine.Protocol.Types.{protocol_version, Event}
use epistemic_engine.Protocol.Provider.{Provider, zero_context}

pub record WatchEnv : Type 0 where
  pub sha256_hex : RawMessage → String
  pub payload : String → String → ℕ → RawMessage  -- the JSON of path, digest and size
  pub base : String → String  -- `filepath.Base`
  pub now : Time

pub record File : Type 0 where
  pub path : String
  pub content : Option RawMessage

-- The map `seen`, and the provider's state.
pub record Watching (S : Type 0) : Type 0 where
  pub seen : Map String
  pub state : S

module _ {S : Type 0} (env : WatchEnv) (provider : Provider S) where
  abbrev pub event_of_file : String → RawMessage → Event
  event_of_file path data_ =
      let digest = env.sha256_hex data_ in
      record {
        spec_version = protocol_version;
        id = concat "file-" (take_text 24 digest);
        type = "evidence.discovered";
        source = record {
          name = "epistemic-relay-file-receiver";
          version = protocol_version;
          instance = "";
        };
        subject = record { type = "artifact"; id = env.base path };
        time = env.now;
        context = zero_context;
        ordering = record { sequence = pos 0; partition = "" };
        idempotency_key = digest;
        payload = env.payload path digest (length data_);
        extensions = [];
        unknown = [];
      }

  unfoldable pub scan_data : String → RawMessage → Watching S → Watching S
  unfolding take_text
  scan_data path data_ w =
      let digest = env.sha256_hex data_ in
      if or_zero "" (lookup path w.seen) == digest then w else record {
        seen = insert path digest w.seen;
        state = (provider.emit (event_of_file path data_) w.state).1;
      }

  unfoldable pub scan : List File → Watching S → Watching S
  unfolding scan_data
  scan [] w = w
  scan (f ∷ fs) w = elim f.content [
    | none ↦ scan fs w
    | some bytes ↦ scan fs (scan_data f.path bytes w)
  ]
