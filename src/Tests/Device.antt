-- ===== src/Tests/Device.antt =====
-- Runs of the device service, and witnesses for its theorems.
use sienne.Base.{
  ℕ, zero, suc, String, ◌≡◌, refl, sym, ap, ◌∙◌, true, none, some, List, [], ◌∷◌, arith, ◌==◌,
  if◌then◌else◌, length,
}
use sienne.Base.Exec.{ok, ◌>>=◌}
use sienne.Base.Int.{pos, ◌+ℤ◌, whole_seconds}
use sienne.Base.Text.{trim_space, to_lower, to_upper}
use sienne.Ports.{DeviceCodeEntry, DeviceCodes}
use sienne.Scopes.{contains, normalize_scopes, all_contained}
use sienne.Device.{
  DecideInput, Context, Service, start, decide, spell, user_code_of, start_result, new_entry,
}
use sienne.Device.Start.{FillsBuffer, Started, start-Started}
use sienne.Device.Decision.{Loaded, Written, decide-Written}
use sienne.Tests.World.{
  World, wrote, gives, clock, json, strconv, clients, client, sessions, device_entry,
}

abbrev zeros : ℕ → List ℕ
zeros zero = []
zeros (suc n) = 33 ∷ zeros n

length-zeros : (n : ℕ) → length (zeros n) ≡ n
length-zeros zero = refl
length-zeros (suc n) = omega (arith, length-zeros n)

abbrev pending : DeviceCodeEntry
pending = record device_entry { status = "pending" }

abbrev codes : DeviceCodes World
codes = record {
  save = λ entry ttl. wrote entry.user_code;
  get_by_device_code = λ c. gives none;
  get_by_user_code = λ c. gives (if c == "ABCD" then some pending else none);
  approve = λ c id subject at. wrote "approved";
  deny = λ c at. wrote "denied";
  mark_consumed = λ c at. wrote "device consumed";
  touch_poll = λ c at interval. gives true;
}

abbrev service : Service World
service = record {
  clients = clients;
  device_codes = some codes;
  sessions = sessions;
  session_cache = none;
  device_ttl = pos 600_000_000_000;
  interval = pos 5_000_000_000;
  clock = clock;
  random = λ n. gives (zeros n);
  json = json;
  strconv = strconv;
}

fills : FillsBuffer service
fills n buf w v h = let same : zeros n ≡ buf = cc in ap length (sym same) ∙ length-zeros n

abbrev shown : String
shown = "BBBB-BBBB"

abbrev entry : DeviceCodeEntry
entry =
    new_entry service client ("openid" ∷ []) "HHHHHHHHHHHHHHHHHHHHHHHHHHHHHHHH" shown
      (pos 1_600_000_000_000)

started :
    start service codes (record { client_id = "web"; scopes = "openid" ∷ [] }) []
    ≡ (ok (start_result service entry), shown ∷ [])
unfolding start ◌>>=◌ trim_space contains normalize_scopes all_contained spell user_code_of
    new_entry ◌+ℤ◌ whole_seconds
started = refl

start-Started_example :
    Started service codes
      (record { client_id = "web"; scopes = "openid" ∷ [] })
      []
      (shown ∷ [])
      (start_result service entry)
start-Started_example =
    start-Started service fills codes (record { client_id = "web"; scopes = "openid" ∷ [] }) []
      (shown ∷ []) (start_result service entry) started

abbrev decision : DecideInput
decision = record { session_id = "sid"; user_code = " abcd"; action = "Approve" }

decided : decide service decision [] ≡ (ok (record { approved = true }), "approved" ∷ [])
unfolding decide ◌>>=◌ trim_space to_lower to_upper
decided = refl

decide-Written_example :
    (d : DeviceCodes World) × (c : Context) × (service.device_codes ≡ some d)
    × Loaded service d "sid" " abcd" [] c
    × Written service d c
        ("approved" ∷ [])
        (record { approved = true })
        (to_lower (trim_space "Approve"))
decide-Written_example =
    decide-Written service decision [] ("approved" ∷ []) (record { approved = true }) decided
