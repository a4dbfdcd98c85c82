-- ===== src/Project/Tests.antt =====
-- Concrete runs of the service of projects.
use Prim.Native.String.{String}
use oma_server.Common.{
  ◌≤◌, ◌≡◌, refl, List, [], ◌∷◌, some, World, true, arith, text_dec, Bool-cases, trim_space, fails,
  spent,
}
use oma_server.Project.Model.{
  UpsertConversationCommand, validate_conversation, normalize_conversation,
}
use oma_server.Project.Tables.{
  Tables, count_by_owner, upsert_conversation, has_conversation, has_conversation_id,
  find_id_by_client,
}
use oma_server.Project.Service.{Surroundings, sync_conversation, new_conversation}
use oma_server.Project.Caps.{Request, serve, serve_all, conversations_of, serve_all-max_sessions}

abbrev plain_env : Surroundings
plain_env = record {
  cut = λ s. s;
  gzip = λ s. some s;
  keep = λ key text. true;
  max_sessions = λ owner. some 1;
}

abbrev empty_world : World Tables
empty_world = record { tables = record { projects = []; conversations = [] }; faults = [] }

abbrev talk : String → UpsertConversationCommand
talk client = record {
  owner_id = "ann";
  project_id = "";
  client_id = client;
  title = "Talk";
  created_utc = 0;
  updated_utc = 0;
  messages = "[]";
  message_count = 0;
}

abbrev requests : List Request
requests =
    Request.put_conversation 10 "id1" (talk "a")
    ∷ Request.put_conversation 11 "id2" (talk "b")
    ∷ Request.put_conversation 12 "id3" (talk "a")
    ∷ []

-- The second one is over the cap, and the third is the first one again.
requests_kept : conversations_of "ann" (serve_all plain_env requests empty_world) ≡ 1
unfolding conversations_of serve_all serve sync_conversation count_by_owner validate_conversation
    text_dec Bool-cases normalize_conversation trim_space fails find_id_by_client spent
    upsert_conversation has_conversation has_conversation_id new_conversation
requests_kept = refl

serve_all-max_sessions_example :
    conversations_of "ann" (serve_all plain_env requests empty_world) ≤ 1
unfolding conversations_of count_by_owner
serve_all-max_sessions_example =
    serve_all-max_sessions "ann" plain_env 1 refl (omega arith) requests empty_world (ground arith)
