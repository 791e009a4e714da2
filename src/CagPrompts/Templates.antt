-- ===== src/CagPrompts/Templates.antt =====
-- The texts of the templates of backend/app/services/cag_prompts.py.
use terrible_naming_conventi.Base.{◌++◌, codes}
use terrible_naming_conventi.Models.{Text}

-- _CAP_INSTRUCTIONS
abbrev cap_instructions : Text
cap_instructions =
    codes "Strict schema caps (enforce these exactly):\n"
    ++ codes "- project_summary: required string, max 5000 characters\n"
    ++ codes "- decisions: required list, max 100 items; each item has:\n"
    ++ codes "    - description: required string, max 500 characters\n"
    ++ codes "    - approximate_date: ISO date string (YYYY-MM-DD) or null\n"
    ++ codes "    - summary_id_ref: the UUID of the summary that introduced this decision, or "
    ++ codes "null\n"
    ++ codes "- open_items: required list, max 100 items; each item has:\n"
    ++ codes "    - description: required string, max 500 characters\n"
    ++ codes "    - first_seen_summary_id: the UUID of the first summary mentioning this "
    ++ codes "item, or null\n"
    ++ codes "- key_people: required list, max 50 items; each item has:\n"
    ++ codes "    - name: required string, max 120 characters\n"
    ++ codes "    - role: string or null, max 120 characters\n"
    ++ codes "- recurring_themes: required list of strings, max 30 items; each string max 80 "
    ++ codes "characters\n"
    ++ codes "Do not include any fields not listed above.\n"

-- INITIAL_GENERATION_PROMPT, before and after its field
abbrev pub initial_generation_before : Text
initial_generation_before =
    codes "You are updating a structured project belief state for a hybrid RAG/CAG "
    ++ codes "knowledge system.\n"
    ++ codes "\n"
    ++ codes "Given the following document summaries, produce a single JSON object matching "
    ++ codes "the exact schema below.\n"
    ++ codes "\n"
    ++ cap_instructions
    ++ codes "\n"
    ++ codes "Each summary is prefixed with its summary id, document filename, and created_at "
    ++ codes "timestamp.\n"
    ++ codes "Use the summary id as summary_id_ref for decisions and first_seen_summary_id "
    ++ codes "for open_items when applicable.\n"
    ++ codes "Do not invent information that is not present in the summaries.\n"
    ++ codes "If the summaries contain no decisions, open items, key people, or recurring "
    ++ codes "themes, return empty lists for those fields.\n"
    ++ codes "Return ONLY valid JSON. No markdown, no explanations, no code fences.\n"
    ++ codes "\n"
    ++ codes "Document summaries:\n"

abbrev pub initial_generation_after : Text
initial_generation_after = codes "\n" ++ codes "\n" ++ codes "Output JSON:"

-- BATCH_DIGEST_PROMPT, before and after its field
abbrev pub batch_digest_before : Text
batch_digest_before =
    codes "You are producing an intermediate digest for a hierarchical project "
    ++ codes "belief-state rebuild.\n"
    ++ codes "\n"
    ++ codes "Given the following batch of document summaries, produce a single JSON object "
    ++ codes "matching the exact schema below. This digest will later be merged with other "
    ++ codes "digests, so it must be dense and self-contained.\n"
    ++ codes "\n"
    ++ codes "Rules for this digest:\n"
    ++ codes "1. Capture all decisions, open items, key people, and recurring themes from the "
    ++ codes "batch.\n"
    ++ codes "2. Do not invent information not present in the summaries.\n"
    ++ codes "3. Carry the summary id of the source summary as summary_id_ref for decisions "
    ++ codes "and first_seen_summary_id for open_items whenever applicable.\n"
    ++ codes "4. Resolve contradictions inside this batch by preferring the LATER in-content "
    ++ codes "date; use document filename dates or decision approximate_date when present. If "
    ++ codes "no in-content date exists, prefer the later event-log entry (later created_at / "
    ++ codes "newer summary). Drop superseded entries; do not keep both.\n"
    ++ codes "5. Close (remove) open_items that the batch explicitly shows as resolved.\n"
    ++ codes "6. Return ONLY valid JSON. No markdown, no explanations, no code fences.\n"
    ++ codes "\n"
    ++ codes "Document summaries (in chronological order):\n"

abbrev pub batch_digest_after : Text
batch_digest_after = codes "\n" ++ codes "\n" ++ codes "Output JSON:\n" ++ cap_instructions

-- DIGEST_MERGE_PROMPT, before and after its field
abbrev pub digest_merge_before : Text
digest_merge_before =
    codes "You are merging intermediate digests during a hierarchical project belief-state "
    ++ codes "rebuild.\n"
    ++ codes "\n"
    ++ codes "Given the following chronologically-ordered intermediate digests, produce a "
    ++ codes "single merged JSON object matching the exact schema below.\n"
    ++ codes "\n"
    ++ codes "Rules for merging:\n"
    ++ codes "1. Combine all decisions, open items, key people, and recurring themes from the "
    ++ codes "digests.\n"
    ++ codes "2. The digests are provided in chronological order (earliest first, latest "
    ++ codes "last). LATER digests supersede EARLIER digests on conflict.\n"
    ++ codes "3. Match entries by summary_id_ref when present. Otherwise, match only when "
    ++ codes "both case-insensitive description AND approximate_date are equal. Treat entries "
    ++ codes "with different dates or no matching ref as distinct.\n"
    ++ codes "4. Close (remove) open_items from earlier digests that later digests explicitly "
    ++ codes "show as resolved.\n"
    ++ codes "5. Do not invent information not present in the digests.\n"
    ++ codes "6. Return ONLY valid JSON. No markdown, no explanations, no code fences.\n"
    ++ codes "\n"
    ++ codes "Intermediate digests (in chronological order):\n"

abbrev pub digest_merge_after : Text
digest_merge_after = codes "\n" ++ codes "\n" ++ codes "Output JSON:\n" ++ cap_instructions

-- INCREMENTAL_UPDATE_PROMPT
abbrev pub incremental_update_before : Text
incremental_update_before =
    codes "You are incrementally updating a structured project belief state for a hybrid "
    ++ codes "RAG/CAG knowledge system.\n"
    ++ codes "\n"
    ++ codes "Current belief state JSON:\n"

abbrev pub incremental_update_between : Text
incremental_update_between =
    codes "\n" ++ codes "\n" ++ codes "New document summaries to integrate:\n"

abbrev pub incremental_update_after : Text
incremental_update_after =
    codes "\n"
    ++ codes "\n"
    ++ codes "Each summary is prefixed with its summary id, document filename, and created_at "
    ++ codes "timestamp.\n"
    ++ codes "\n"
    ++ codes "Produce a single updated JSON object matching the exact same schema as the "
    ++ codes "current state.\n"
    ++ codes "\n"
    ++ cap_instructions
    ++ codes "\n"
    ++ codes "Conflict-resolution rules (apply in this order):\n"
    ++ codes "1. When new information contradicts an existing decision or open item, prefer "
    ++ codes "the claim with the LATER in-content date.\n"
    ++ codes "   Use decision approximate_date or document filename dates when present.\n"
    ++ codes "   If no in-content date exists, prefer the later event-log entry (later "
    ++ codes "created_at / newer summary).\n"
    ++ codes "2. Record the superseding decision and DROP the superseded one; do not keep "
    ++ codes "both.\n"
    ++ codes "3. Close (remove) open_items that the new window explicitly shows as resolved.\n"
    ++ codes "4. Preserve untouched entries verbatim. Do NOT re-paraphrase entries the new "
    ++ codes "window does not mention.\n"
    ++ codes "   This is the primary drift-control instruction.\n"
    ++ codes "\n"
    ++ codes "Use the summary id as summary_id_ref for decisions and first_seen_summary_id "
    ++ codes "for open_items when applicable.\n"
    ++ codes "Do not invent information that is not present in the current state or the new "
    ++ codes "window.\n"
    ++ codes "Return ONLY valid JSON. No markdown, no explanations, no code fences.\n"
    ++ codes "\n"
    ++ codes "Output JSON:"
