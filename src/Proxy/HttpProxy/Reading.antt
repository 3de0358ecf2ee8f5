-- ===== src/Proxy/HttpProxy/Reading.antt =====
-- pkg/client/client.go and pkg/server/manager.go: the buffered reader that both proxies put on the
-- connection, and http.ReadRequest on it.
use warp_stream.Base.{Bytes, List, [], ◌∷◌, ◌++◌, none, some}
use warp_stream.Proxy.HttpProxy.{Request, Received}

-- What ReadRequest makes of the bytes that the reader holds; `complete` has the bytes behind the request.
pub data Parsed : Type 0 where
  needs_more malformed : Parsed
  complete : Request → Bytes → Parsed

abbrev pub all_of : List Bytes → Bytes
all_of [] = []
all_of (chunk ∷ chunks) = chunk ++ all_of chunks

module _ (parse : Bytes → Parsed) where
  -- The reader takes from the connection what one Read returns, `chunks` in turn, for as long as the
  -- request is not complete.
  unfoldable pub after_chunk : (Bytes → Received) → Bytes → List Bytes → Parsed → Received
  after_chunk continue held chunks needs_more = continue held
  after_chunk continue held chunks malformed = record {
    request = none;
    buffered = held;
    coming = all_of chunks;
  }
  after_chunk continue held chunks (complete r rest) = record {
    request = some r;
    buffered = rest;
    coming = all_of chunks;
  }

  unfoldable pub read_request : Bytes → List Bytes → Received
  read_request held [] = record { request = none; buffered = held; coming = [] }
  read_request held (chunk ∷ chunks) =
      let continue : Bytes → Received = λ bytes. read_request bytes chunks in
      after_chunk continue (held ++ chunk) chunks (parse (held ++ chunk))
