-- ===== src/En50221/App/Mmi/Fragments.antt =====
-- en50221_app_mmi_defragment: data that comes in several messages.
use dvb_apps.Common.{
  ℕ, ◌+◌, ◌^◌, Bool, true, false, ◌||◌, Option, none, some, List, ◌∷◌, ◌++◌, ltb, ◌==◌,
  if◌then◌else◌, length, Result, ok, fail, fault,
}
use dvb_apps.En50221.App.Mmi.{
  Block, null, block, freed, MmiSession, Chain, menus, lists, segments, downloads, block_of,
  with_block, find, change_session,
}

-- TAG_MENU_LAST, TAG_MENU_MORE and so on.
abbrev pub tag_menu_last : ℕ
tag_menu_last = 0x9f8809

abbrev pub tag_menu_more : ℕ
tag_menu_more = 0x9f880a

abbrev pub tag_list_last : ℕ
tag_list_last = 0x9f880c

abbrev pub tag_list_more : ℕ
tag_list_more = 0x9f880d

abbrev pub tag_subtitle_segment_last : ℕ
tag_subtitle_segment_last = 0x9f880e

abbrev pub tag_subtitle_segment_more : ℕ
tag_subtitle_segment_more = 0x9f880f

abbrev pub tag_subtitle_download_last : ℕ
tag_subtitle_download_last = 0x9f8814

abbrev pub tag_subtitle_download_more : ℕ
tag_subtitle_download_more = 0x9f8815

-- The switch on the tag.
unfoldable pub chain_of : ℕ → Option Chain
chain_of tag =
    if (tag == tag_menu_last) || (tag == tag_menu_more)
    then some menus
    else if (tag == tag_list_last) || (tag == tag_list_more)
    then some lists
    else if (tag == tag_subtitle_segment_last) || (tag == tag_subtitle_segment_more)
    then some segments
    else if (tag == tag_subtitle_download_last) || (tag == tag_subtitle_download_more)
    then some downloads
    else none

-- Whether a tag is that of a last fragment: `more_last`.
unfoldable pub is_last : ℕ → Bool
is_last tag =
    (tag == tag_menu_last)
    || (tag == tag_list_last)
    || (tag == tag_subtitle_segment_last)
    || (tag == tag_subtitle_download_last)

-- `realloc(*block_chain, *block_length + indata_length)` and the copy behind what was there. The length
-- has 32 bits, and is that of the block. realloc to no bytes frees a block and returns NULL, which is
-- `fail`; a length that wraps is a write outside the memory.
unfoldable pub append : Block → List ℕ → Result (List ℕ)
append null indata = ok indata
append (block old) indata =
    let n = length old + length indata in
    if n == 0 then fail else if ltb n (2 ^ 32) then ok (old ++ indata) else fault
append freed indata = fault

-- What is returned: -1, 0 for a block that is not complete, or 1 or 2 with the data.
pub data Defragmented : Type 0 where
  short incomplete : Defragmented
  complete : List ℕ → Defragmented

abbrev pub new_session : ℕ → MmiSession
new_session n = record {
  session_number = n;
  menu_block = null;
  list_block = null;
  subtitlesegment_block = null;
  subtitledownload_block = null;
}

-- The sessions, with one of that number at their front if there was none.
unfoldable pub with_new_session : ℕ → List MmiSession → List MmiSession
with_new_session n ss = elim (find n ss) [ some s ↦ ss | none ↦ new_session n ∷ ss ]

-- The block of a session; NULL where there is no session.
unfoldable pub pending : ℕ → Chain → List MmiSession → Block
pending n c ss = elim (find n ss) [ none ↦ null | some s ↦ block_of c s ]

abbrev pub put : ℕ → Chain → Block → List MmiSession → List MmiSession
put n c b ss = change_session n (with_block c b) ss

-- More data is still to come. A block that realloc freed stays in the chain.
unfoldable pub add_more :
    ℕ → Chain → List ℕ → List MmiSession → Result (Defragmented × List MmiSession)
add_more n c indata ss = elim (append (pending n c ss) indata) [
  | ok new ↦ ok (incomplete, put n c (block new) ss)
  | fail ↦ ok (short, put n c freed ss)
  | fault ↦ fault
]

-- The last fragment of a session that is known.
unfoldable pub add_last :
    ℕ → Chain → List ℕ → List MmiSession → Result (Defragmented × List MmiSession)
add_last n c indata ss = elim (append (pending n c ss) indata) [
  | ok new ↦ ok (complete new, put n c null ss)
  | fail ↦ ok (short, put n c freed ss)
  | fault ↦ fault
]

unfoldable pub defragment :
    ℕ → ℕ → Bool → List ℕ → List MmiSession → Result (Defragmented × List MmiSession)
defragment n tag false indata ss =
    let ss1 = with_new_session n ss in
    elim (chain_of tag) [ none ↦ ok (short, ss1) | some c ↦ add_more n c indata ss1 ]
defragment n tag true indata ss = elim (find n ss) [
  | none ↦ ok (complete indata, ss)
  | some s ↦ elim (chain_of tag) [ none ↦ ok (short, ss) | some c ↦ add_last n c indata ss ]
]
