-- ===== src/Live/Streamer.antt =====
-- `ResponsesLiveStreamer` of grok2api/protocol/openai_responses.py. The dictionary `_tools` is a list in
-- ascending order of its keys. The functions that read the JSON text of arguments are a parameter.
mod State
mod Calls
mod Turn
unfoldable pub use State.*
unfoldable pub use Calls.*
unfoldable pub use Turn.*
