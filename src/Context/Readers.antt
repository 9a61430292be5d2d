-- ===== src/Context/Readers.antt =====
-- What src/Context.cpp reads of the request, the response and the writer, and the builder of
-- contexts for tests. libhv's own readers and setters are arguments.
use alkaidlab_fw.Base.{ℕ, List, Option, none, Bool, ◌&&◌, if◌then◌else◌, Bytes, codes}
use alkaidlab_fw.Base.Int.{ℤ}
use alkaidlab_fw.Context.{Request, Response, Context, WriterCall, has_writer, context}

module _ {H : Type 0} where
  -- `text` is `http_method_str`.
  abbrev pub method : (ℕ → Bytes) → Context H → Bytes
  method text c = text c.req.method

  abbrev pub path : Context H → Bytes
  path c = c.req.path

  abbrev pub param : (Request H → Bytes → Bytes) → Bytes → Context H → Bytes
  param get_param key c = get_param c.req key

  abbrev pub header : (Request H → Bytes → Bytes) → Bytes → Context H → Bytes
  header get_header key c = get_header c.req key

  abbrev pub body : Context H → Bytes
  body c = c.req.body

  abbrev pub client_ip : Context H → Bytes
  client_ip c = c.req.client_ip

  abbrev pub client_port : Context H → ℤ
  client_port c = c.req.client_port

  abbrev pub form_data : (Request H → Bytes → Bytes) → Bytes → Context H → Bytes
  form_data get_form_data key c = get_form_data c.req key

  abbrev pub response_header : (Response H → Bytes → Bytes) → Bytes → Context H → Bytes
  response_header get_header key c = get_header c.resp key

  abbrev pub content_length : Context H → ℤ
  content_length c = c.req.content_length

  abbrev pub cookie : (Request H → Bytes → Bytes) → Bytes → Context H → Bytes
  cookie get_cookie name c = get_cookie c.req name

  abbrev pub method_enum : Context H → ℕ
  method_enum c = c.req.method

  -- `connected` and `size` are what a writer answers.
  abbrev pub writer_connected : Bool → Context H → Bool
  writer_connected connected c = has_writer c && connected

  abbrev pub write_bufsize : ℕ → Context H → ℕ
  write_bufsize size c = if has_writer c then size else 0

  abbrev pub writer_ownership : Context H → Option (List WriterCall)
  writer_ownership c = c.writer

  unfoldable pub set_content_type :
      (Bytes → Response H → Response H) → Bytes → Context H → Context H
  set_content_type put ct c = record c { resp = put ct c.resp }

  unfoldable pub set_content_type_by_filename :
      (Bytes → Response H → Response H) → Bytes → Context H → Context H
  set_content_type_by_filename put filename c = record c { resp = put filename c.resp }

-- `TestContextBuilder`; `blank_req` and `blank_resp` are what libhv's constructors make.
pub record TestContextBuilder (H : Type 0) : Type 0 where
  pub req : Request H
  pub resp : Response H

module _ {H : Type 0} where
  -- `http_get` is libhv's constant HTTP_GET.
  unfoldable pub test_context_builder : ℕ → Request H → Response H → TestContextBuilder H
  test_context_builder http_get blank_req blank_resp = record {
    req = record blank_req { method = http_get; path = codes "/" };
    resp = blank_resp;
  }

  -- `enum` is `http_method_enum`.
  unfoldable pub with_method : (Bytes → ℕ) → Bytes → TestContextBuilder H → TestContextBuilder H
  with_method enum m b = record b { req = record b.req { method = enum m } }

  unfoldable pub with_path : Bytes → TestContextBuilder H → TestContextBuilder H
  with_path p b = record b { req = record b.req { path = p } }

  unfoldable pub with_header :
      (Bytes → Bytes → H → H) → Bytes → Bytes → TestContextBuilder H → TestContextBuilder H
  with_header put key val b = record b {
    req = record b.req { headers = put key val b.req.headers };
  }

  unfoldable pub with_client_ip : Bytes → TestContextBuilder H → TestContextBuilder H
  with_client_ip ip b = record b { req = record b.req { client_ip = ip } }

  unfoldable pub with_body : Bytes → TestContextBuilder H → TestContextBuilder H
  with_body text b = record b { req = record b.req { body = text } }

  -- A context of copies of the two, without a writer.
  unfoldable pub build : TestContextBuilder H → Context H
  build b = context b.req b.resp none
