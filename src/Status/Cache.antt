-- ===== src/Status/Cache.antt =====
-- The page of src/status/status_handler.cpp, when it is due and while it is cached.
use tibia_login_orig.Base.{
  ℕ, zero, suc, ◌^◌, ◌≤◌, ◌<◌, ◌≡◌, refl, ◌∙◌, inl, inr, true, false, Bool-cases, Option, some,
  List, [], ◌∷◌, length, ltb, ◌==◌, if◌then◌else◌, ℤ, pos, negsuc, lebℤ, sub_ℕ, add_int_negsuc,
  pos_part, neg_part, codes, arith,
}
use tibia_login_orig.Query.Requests.{WorldInfo}
use tibia_login_orig.Strings.{c_string}
use tibia_login_orig.Xml.{XmlBuffer, Argument, skip_length}
use tibia_login_orig.Xml.Laws.{IsSound, xml_append_string-Shows, xml_null_terminate_lem}
use tibia_login_orig.Xml.Numbers.{magnitude}
use tibia_login_orig.Xml.Formats.{Shows-Keeps, then-Keeps, matches, xml_append_format-Keeps}
use tibia_login_orig.Status.{
  Service, StatusCache, StatusInfo, no_info, uptime_of, world_info, skip_line, server_format,
  write_page, is_zero, ask_world, get_status_string,
}

-- A world whose start is no time in front of 1970, and whose numbers fit.
pub record IsTame (world : WorldInfo) : Type 0 where
  pub dated : neg_part world.last_startup ≡ 0
  pub early : pos_part world.last_startup < 2 ^ 31
  pub players : world.num_players < 2 ^ 16
  pub capacity : world.max_players < 2 ^ 16
  pub peak : world.online_peak < 2 ^ 16

record IsShowable (info : StatusInfo) : Type 0 where
  up : magnitude info.uptime < 2 ^ 63
  players : info.num_players < 2 ^ 63
  capacity : info.max_players < 2 ^ 63
  peak : info.online_peak < 2 ^ 63

uptime_total :
    (now : ℕ) (world : WorldInfo)
    → now < 2 ^ 31
    → IsTame world
    → (up : ℤ) × (uptime_of now world ≡ some up) × (magnitude up < 2 ^ 63)
unfolding uptime_of
uptime_total now world small t = go world.last_startup t.dated t.early
  where
    go :
        (startup : ℤ)
        → neg_part startup ≡ 0
        → pos_part startup < 2 ^ 31
        → (up : ℤ) × (uptime_of now (record world { last_startup = startup }) ≡ some up)
          × (magnitude up < 2 ^ 63)
    go (pos zero) dated early = (pos 0, refl, omega arith)
    go (pos (suc n)) dated early =
        let later : (suc n == 0) ≡ false = ground arith in
        elim (Bool-cases (lebℤ (pos (suc n)) world.last_shutdown)) [
          | inl down ↦ (pos 0, rw (later, down) refl, omega arith)
          | inr on ↦ (
            sub_ℕ now (suc n),
            rw (later, on, add_int_negsuc now n small (omega arith)) refl,
            ground arith,
          )
        ]
    go (negsuc n) dated early = absurd (omega arith)

world_total :
    (now : ℕ) (world : WorldInfo)
    → now < 2 ^ 31
    → IsTame world
    → (info : StatusInfo) × (world_info now world ≡ some info) × IsShowable info
unfolding world_info
world_total now world small t =
    let (up, e, fits) = uptime_total now world small t in
    (
      record {
        world_name = c_string world.name;
        uptime = up;
        num_players = world.num_players;
        max_players = world.max_players;
        online_peak =
            if ltb world.online_peak world.num_players
            then world.num_players
            else world.online_peak;
      },
      rw e refl,
      record {
        up = fits;
        players = omega (arith, t.players);
        capacity = omega (arith, t.capacity);
        peak = ground (arith, t.players, t.peak);
      },
    )

-- A page is made, whatever stood in the buffer.
write_page-Keeps :
    (service : Service) (info : StatusInfo) (b : XmlBuffer)
    → IsShowable info
    → IsSound b
    → 1 ≤ b.size
    → (b' : XmlBuffer) × (write_page service info b ≡ some b') × (length b'.bytes ≡ length b.bytes)
unfolding write_page matches skip_length
write_page-Keeps service info b showable s room =
    let head =
      then-Keeps b s
        (Shows-Keeps
          (xml_append_string-Shows (codes "<?xml version=\"1.0\" encoding=\"UTF-8\"?>") b s))
        (λ c t. Shows-Keeps (xml_append_string-Shows (codes "<tsqp version=\"1.0\">") c t)) in
    let server = then-Keeps b s head (λ c t.
      xml_append_format-Keeps server_format
        (Argument.string info.world_name
          ∷ Argument.number info.uptime
          ∷ Argument.string service.url
          ∷ Argument.string service.location
          ∷ Argument.string service.server_type
          ∷ Argument.string service.server_version
          ∷ Argument.string service.client_version
          ∷ [])
        c refl (tt, (showable.up, (tt, (tt, (tt, (tt, (tt, tt))))))) t) in
    let players = then-Keeps b s server (λ c t.
      xml_append_format-Keeps (codes "<players online=\"%d\" max=\"%d\" peak=\"%d\"/>")
        (Argument.number (pos info.num_players)
          ∷ Argument.number (pos info.max_players)
          ∷ Argument.number (pos info.online_peak)
          ∷ [])
        c refl (showable.players, (showable.capacity, (showable.peak, tt))) t) in
    let motd = then-Keeps b s players (λ c t.
      xml_append_format-Keeps (codes "<motd>%s</motd>")
        (Argument.string (skip_line service.motd) ∷ []) c refl (tt, tt) t) in
    let x =
      then-Keeps b s motd (λ c t. Shows-Keeps (xml_append_string-Shows (codes "</tsqp>") c t)) in
    let (b', e, _, same) =
      xml_null_terminate_lem x.after (omega (arith, x.size_kept, x.length_kept))
        (omega (arith, x.size_kept, room)) in
    (b', rw x.returns e, same ∙ x.length_kept)

-- The query for the world ends, with a world of sensible numbers.
abbrev pub AnswersWorld : {S : Type 0} → (S → Option (ℤ × WorldInfo × S)) → Type 0
AnswersWorld {S} get_world =
    (s : S)
    → (result : ℤ) × (world : WorldInfo) × (s' : S) × (get_world s ≡ some (result, world, s'))
      × IsTame world

module _ {S : Type 0} (get_world : S → Option (ℤ × WorldInfo × S))
    (answers : AnswersWorld get_world) where
  ask_world_total :
      (now : ℕ) (s : S)
      → now < 2 ^ 31
      → (info : StatusInfo) × (s' : S) × (ask_world get_world now s ≡ some (info, s'))
        × IsShowable info
  unfolding ask_world
  ask_world_total now s small =
      let (result, world, s', run, tame) = answers s in
      let (info, e, showable) = world_total now world small tame in
      elim (Bool-cases (is_zero result)) [
        | inl good ↦ (info, s', rw (run, good, e) refl, showable)
        | inr failed ↦ (
          no_info,
          s',
          rw (run, failed) refl,
          record {
            up = omega arith;
            players = omega arith;
            capacity = omega arith;
            peak = omega arith;
          },
        )
      ]

  -- A page that is due is made inside its 2048 bytes, whatever the query manager answers with sensible
  -- numbers, and until the interval has passed it is given again: the query manager is not asked.
  pub get_status_string_cached :
      (service : Service) (interval : ℤ) (now now' : ℕ) (cache : StatusCache) (s : S)
      → now < 2 ^ 31
      → length cache.status_string ≡ 2048
      → lebℤ interval (sub_ℕ now cache.last_status_refresh) ≡ true
      → lebℤ interval (sub_ℕ now' now) ≡ false
      → (text : List ℕ) × (cache' : StatusCache) × (s' : S) × (get_status_string get_world service
            interval now cache s
          ≡ some (text, cache', s'))
        × (length cache'.status_string ≡ 2048)
        × ((t : S)
            → get_status_string get_world service interval now' cache' t ≡ some (text, cache', t))
  unfolding get_status_string
  get_status_string_cached service interval now now' cache s small whole due early =
      let (info, s', asked, showable) = ask_world_total now s small in
      let (b, made, kept) =
        write_page-Keeps service info
          (record { bytes = cache.status_string; size = 2048; position = 0 }) showable
          (omega (arith, whole)) (omega arith) in
      (
        c_string b.bytes,
        record { last_status_refresh = now; status_string = b.bytes },
        s',
        rw (due, asked, made) refl,
        kept ∙ whole,
        λ t. rw early refl,
      )
