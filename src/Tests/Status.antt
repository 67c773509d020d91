-- ===== src/Tests/Status.antt =====
-- src/status and the status requests of src/network at concrete inputs.
use tibia_login_orig.Base.{
  ℕ, ◌+◌, ◌-◌, ◌≡◌, some, List, [], ◌∷◌, ◌++◌, length, take, replicate, min, negsuc, arith,
}
use tibia_login_orig.Base.{ℤ, pos, Option, length-replicate, refl}
use tibia_login_orig.Query.Requests.{WorldInfo, no_world}
use tibia_login_orig.Status.{Service, StatusCache, empty_cache, get_status_string}
use tibia_login_orig.Status.Cache.{AnswersWorld, get_status_string_cached}
use tibia_login_orig.Xml.{
  XmlBuffer, xml_null_terminate, xml_append_number, xml_append_string_escaped,
}
use tibia_login_orig.Xml.Laws.{
  Shows, shown, escaped, HasNone, IsMarkup, xml_append_string_escaped-Shows, escaped-HasNone,
  xml_null_terminate_lem,
}
use tibia_login_orig.Xml.Numbers.{IsDecimal, backwards, sign, xml_append_number-Shows}

abbrev page : XmlBuffer
page = record { bytes = replicate 6 0; size = 6; position = 1 }

xml_append_string_escaped-Shows_example :
    Shows page (escaped (b'a' ∷ b'<' ∷ [])) (xml_append_string_escaped (b'a' ∷ b'<' ∷ []) page)
xml_append_string_escaped-Shows_example =
    xml_append_string_escaped-Shows (b'a' ∷ b'<' ∷ []) page (omega arith)

escaped-HasNone_example : HasNone IsMarkup (escaped (b'<' ∷ 34 ∷ []))
escaped-HasNone_example = escaped-HasNone (b'<' ∷ 34 ∷ [])

xml_append_number-Shows_example :
    (ds : List ℕ) × Shows page
      (sign (negsuc 41) ++ backwards ds)
      (xml_append_number (negsuc 41) page)
    × IsDecimal 42 ds
xml_append_number-Shows_example =
    xml_append_number-Shows (negsuc 41) page (omega arith) (omega arith)

xml_null_terminate_lem_example :
    (b' : XmlBuffer) × (xml_null_terminate page ≡ some b')
    × (take (min 1 (6 - 1) + 1) b'.bytes ≡ take (min 1 (6 - 1)) (shown page) ++ 0 ∷ [])
    × (length b'.bytes ≡ 6)
xml_null_terminate_lem_example = xml_null_terminate_lem page (omega arith) (omega arith)

-- A query manager that counts its queries.
abbrev world : WorldInfo
world = record no_world { num_players = 7; last_startup = pos 90 }

abbrev count_queries : ℕ → Option (ℤ × WorldInfo × ℕ)
count_queries n = some (pos 0, world, n + 1)

count_queries-AnswersWorld : AnswersWorld count_queries
count_queries-AnswersWorld n = (
  pos 0,
  world,
  n + 1,
  refl,
  record {
    dated = refl;
    early = omega arith;
    players = omega arith;
    capacity = omega arith;
    peak = omega arith;
  },
)

abbrev service : Service
service = record {
  url = [];
  location = b'S' ∷ b'E' ∷ [];
  server_type = [];
  server_version = [];
  client_version = [];
  motd = b'1' ∷ 10 ∷ b'H' ∷ b'i' ∷ [];
}

get_status_string_cached_example :
    (text : List ℕ) × (cache' : StatusCache) × (n : ℕ) × (get_status_string count_queries service
        (pos 60)
        100
        empty_cache
        0
      ≡ some (text, cache', n))
    × (length cache'.status_string ≡ 2048)
    × ((m : ℕ)
        → get_status_string count_queries service (pos 60) 150 cache' m ≡ some (text, cache', m))
get_status_string_cached_example =
    get_status_string_cached count_queries count_queries-AnswersWorld service (pos 60) 100 150
      empty_cache 0 (omega arith) (length-replicate {A = ℕ} 2048 0) refl refl
