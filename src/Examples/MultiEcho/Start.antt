-- ===== src/Examples/MultiEcho/Start.antt =====
-- How the echo server of several protocols starts (`main` of
-- examples/multi_protocol_echo/server/main.cpp), up to the server's constructor, and what its pages are
-- then. The directory that the process runs in is a parameter.
use splitsen.Base.{
  all_of, no_null, without, ℕ, true, inl, inr, arith, List, [], ◌∷◌, ◌++◌, Bytes, Option, none,
  some, codes, if◌then◌else◌, ◌≡◌, refl, sym, ap, ◌∙◌,
}
use splitsen.Http.MimeTypes.{same_bytes, extension_to_type}
use splitsen.Http.Request.{Request}
use splitsen.Http.Reply.{Reply, ok, two_headers}
use splitsen.Http.RequestHandler.{handle_request, url_decode, has_dots}
use splitsen.Http.RequestHandler.Replies.{handle_request-asked}
use splitsen.Examples.HtmlPreprocess.{FileSystem, Preprocessed, html_preprocess, prepare}
use splitsen.Examples.HtmlPreprocess.Filled.{HasNoNull, IsFilled}
use splitsen.Examples.HtmlPreprocess.Disk.{IsDisk, AreApart, round_works}
use splitsen.Examples.HtmlPreprocess.Prepared.{IsRequired, html_preprocess-AreMade}

-- What the arguments say, or SPLICE_ROOT without the three of them.
pub record Settings : Type 0 where
  pub server_name : Bytes
  pub server_port : Bytes
  pub src : Bytes

abbrev pub default_settings : Option Bytes → Option Settings
default_settings none = none
default_settings (some root) = some (record {
  server_name = codes "0.0.0.0";
  server_port = codes "7777";
  src = root ++ codes "/examples/html_clients";
})

-- `args` are the arguments behind the program's name.
unfoldable pub settings : List Bytes → Option Bytes → Option Settings
settings (name ∷ port ∷ src ∷ []) splice_root =
    some (record { server_name = name; server_port = port; src = src })
settings args splice_root = default_settings splice_root

-- The name that a browser is told.
abbrev pub browser_name : Bytes → Bytes
browser_name name = if same_bytes name (codes "0.0.0.0") then codes "localhost" else name

module _ {Files : Type 0} (fs : FileSystem Files) where
  -- The call of `html_preprocess`; the server is constructed, with `dest` as its root, if it is done.
  unfoldable pub preprocess : Settings → Bytes → Files → Preprocessed Files
  unfolding html_preprocess
  preprocess s dest files =
      html_preprocess fs s.src dest (browser_name s.server_name) s.server_port files

module _ {Files : Type 0} (fs : FileSystem Files) (content : Bytes → Files → Option Bytes)
    (s : Settings) (dest : Bytes) (files : Files) where
  abbrev host : Bytes
  host = browser_name s.server_name

  -- What the server serves.
  abbrev pub open_file : Bytes → Option Bytes
  open_file path = content path (preprocess fs s dest files).files

  -- If the start is done, a request for "/" is answered with 200 and the source folder's index.html,
  -- with the quoted host name where "value_of_hostName" stood first and, after that, the port where
  -- "value_of_portNumber" stood first, behind what the reply held, as text/html. The conditions are those
  -- of `html_preprocess`, that index.html was there, that the streams which read and write it in its
  -- round work, and that its path in the root is the root's with "/index.html".
  pub handle_request-preprocess :
      (lexical_cast : ℕ → Bytes) (text : Bytes) (req : Request) (rep : Reply)
      → IsDisk fs content
      → AreApart fs content s.src dest host s.server_port IsRequired
      → HasNoNull host
      → HasNoNull s.server_port
      → HasNoNull dest
      → fs.path_of dest (codes "index.html") ≡ dest ++ codes "/index.html"
      → same_bytes (fs.extension (codes "index.html")) (codes ".html") ≡ true
      → content (fs.path_of s.src (codes "index.html")) files ≡ some text
      → round_works fs content s.src dest host s.server_port
          (codes "index.html")
          (prepare fs s.src dest host s.server_port (codes "admin_dashboard.html") files).files
        ≡ true
      → (preprocess fs s dest files).is_done ≡ true
      → req.uri ≡ codes "/"
      → (page : Bytes) × IsFilled host s.server_port text page
        × (handle_request lexical_cast open_file dest req rep ≡ record {
          status = ok;
          headers = two_headers lexical_cast (rep.content ++ page) (codes "text/html");
          content = rep.content ++ page;
        })
  unfolding preprocess url_decode extension_to_type has_dots all_of
  handle_request-preprocess lexical_cast text req rep disk apart host_whole port_whole dest_whole
        root is_html there works done uri =
      let (made, untouched) =
        html_preprocess-AreMade fs content s.src dest host s.server_port files disk apart host_whole
          port_whole done in
      elim ((made.1.0 text there).1 is_html) [
        | inl broken ↦ absurd (ground (arith, works, broken))
        | inr (page, held, filled) ↦ (
          page,
          filled,
          handle_request-asked lexical_cast open_file dest (codes "/") [] (codes "index")
              (codes "html") page req rep
              (
                without b'/' (codes "index") refl,
                without b'/' (codes "html") refl,
                without b'.' (codes "html") refl,
              )
              (refl, refl) refl (no_null (codes "/index.html") refl) dest_whole (ap url_decode uri)
              (ap open_file (sym root) ∙ held),
        )
      ]
