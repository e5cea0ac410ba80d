-- ===== src/Lib.antt =====
-- Verification of moonlight-wii, a GameStream client for the Wii: its menus and configuration, the HTTP
-- and XML of the host's answers, pairing and launching, the client's identity, the way of a picture from
-- the decoder to the screen, the audio ring, the socket layer and the memory of the textures.
--
-- The menus (main.c, menu.c) change the configuration (config.c) and call the GameStream client
-- (client.c), which is set up from the files of conf.c, builds URLs, sends them through http.c and reads
-- the answers with xml.c; a running stream decodes pictures (decode.c) into two buffers behind the frame
-- queue (wii.c), which the screen empties (gx_video.c), and fills the audio ring (audio.c), which the DMA
-- empties. Its sockets go through netcompat.c.
--
-- The parts and their files, with paths from the repository's root:
--   Hex         libgamestream/client.c: `bytes_to_hex`, `hex_to_bytes`
--   Xml         libgamestream/xml.c: the expat handlers; Xml/Lists has the lists of applications and of
--               display modes
--   Client      libgamestream/client.c: URLs and requests; Client/Status is `load_server_status`,
--               Client/Requests the calls of one request, Client/Launch is `gs_start_app`, Client/Pair
--               is `gs_pair`
--   Identity    libgamestream/conf.c: `gs_conf_init`, `gs_conf_load`, `mkdirtree`; libgamestream/mkcert.c, which
--               makes the certificate and the key; `gs_new` of client.c and `create_client` of src/main.c,
--               which use them
--   FrameQueue  src/wii/wii.c: `add_frame` and `get_frame`
--   Decode      src/wii/decode.c and the frame buffers of src/wii/wii.c: setup, cleanup, a decode unit from its
--               entries to the planes of a frame buffer, `wii_stream_draw`; Decode/Copy is about the planes,
--               Decode/Packet about the entries, Decode/Order, Decode/Screens and Decode/Run about the frames
--               that wait or are drawn
--   Flip        src/wii/gx_video.c: `vblank_cb`, `draw_done_cb`, `gx_video_present` and the waits of
--               `gx_video_draw_yuv`, as the steps of a relation
--   Font        src/wii/font.c: `draw_freetype_bitmap`, `Font_Printw` and the margin of overscan; the canvas is
--               memory, and the glyphs of freetype are given
--   Address     src/main.c: `enter_address`, with the blocks of memory that hold the address
--   Session     src/_connection.c, src/main.c and src/wii/input.c: how the drawing loop ends, as the steps of
--               its thread, the connection and the input thread
--   Mem2        src/wii/mem2_manager.c: `AddMem2Area` and `RemoveMem2Area`; Mem2/Heaps has the calls on the
--               heaps inside the areas and `__lwp_heap_block_size`, with lwp_heap of libogc as a parameter
--   ViEncoder   src/wii/vi_encoder.c: `VIDEO_SetTrapFilter`, as stores to the I2C registers; ViEncoder/Bus is
--               a device that hears them
--   Textures    src/wii/gx_video.c: the sizes of `gx_video_config_yuv`, and where the loops of
--               `GX_FillTextureYUV` write; Textures/Filling is which bytes of the picture they copy there
--   NetCompat   src/wii/netcompat.c: `select`, NetCompat/Poll is `poll`, NetCompat/Address has
--               `netcompat_sendto`, `ioctl`, `fcntl` and `getaddrinfo`
--   Audio       src/wii/audio.c: the DMA ring, with the Opus decoder as an argument
--   Config      src/config.c, src/config.h as built for the Wii: Config/Parse is `config_file_parse` and
--               `config_parse`, with the readable files as an argument, Config/Save is `config_save`
--   Http        libgamestream/http.c: Http/Url is `parse_url`, Http/Response is how `read_response` collects
--               an answer from what select and recv return, one event after the other
--               Http/Request is the whole of `http_request`, with what sockets and mbedtls return given
--   Menu        src/wii/menu.c: `menu_select`, `menu_input_string` and what is made of them; the presses are
--               a list of rounds
--   AppMenu     src/main.c: `do_stream`; AppMenu/Turns is `main_menu`, with the outcome of each call given,
--               AppMenu/Settings is `settings_menu`, and AppMenu/Chosen what is chosen in it
--   IosReload   src/main.c: `handle_config_pair` and `handle_ios_reload`, the arguments that name an IOS
--   Input       src/wii/input.c: `home_poll`, one poll after the other; Input/Controller is what a scan of the
--               Wiimote becomes for the host and for the menus
--   Errors      libgamestream/errors.h
--   Prelude     shared lists, integers, blocks of memory, C strings, and `atoi` and "%d" of the C library
--   Circular    windows of an array that is used as a ring
--
-- State is a record that the operations take and return; `none`, a result type or the `Outcome` of
-- Client stands for a failure or a jump to cleanup. What lies outside is an argument: expat is the
-- sequence of the handler calls it makes, mbedtls the record Crypto, FFmpeg a function from packets to
-- pictures, `memalign` one from requests to blocks, libogc's sockets the record Net, the file system
-- and what mbedtls answers to mkcert.c the record Platform, the host the replies to come, the sockets
-- and the buttons one event or round after the other, the SD card a function from names to texts. An
-- event list that ends means that the loop still waits. In Decode a call of the decoder is one step,
-- while a draw takes its frame, reads the planes, which it finds as they are at that moment, and
-- returns in steps of its own: the queue is all that is locked. In Session the test of the loop and the
-- draw are two steps. In Flip the thread, the GPU and the interrupt interleave as the waits of the code
-- allow.
--
-- Bounds. Arithmetic of 8, 16 and 32 bits is written out where it can wrap (the indices of the frame
-- queue, the addresses of the arena, bytes, `unsigned short`); `int` is ℤ elsewhere, and the sizes of
-- pictures are numbers. `push_full` runs for as many rounds as the chunk has full buffers, `lines_of` for
-- as many as the file has characters, `print_nat n` for n + 1, and `mkdirtree` for as many as its buffer
-- has characters, which are all enough; files that the option "config" nests are followed up to a given
-- depth, past which the result is `too_deep`; Config/Nesting is about the depth that is enough.
--
-- Not modelled: drawing of the menus, logging and error texts; the source of random numbers
-- (tls_rng.c); sps.c; the contents of the chroma textures and the registers of the graphics hardware
-- (gx_video.c); the port to the Wii U, which is not built; and what third_party holds.
pub mod Prelude
pub mod Circular
pub mod Errors
pub mod Hex
pub mod Xml
pub mod Client
pub mod FrameQueue
pub mod Audio
pub mod Config
pub mod Http
pub mod Menu
pub mod Address
pub mod AppMenu
pub mod Input
pub mod IosReload
pub mod Decode
pub mod NetCompat
pub mod Identity
pub mod Flip
pub mod Font
pub mod Mem2
pub mod Session
pub mod Textures
pub mod ViEncoder
